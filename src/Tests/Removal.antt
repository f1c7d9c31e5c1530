-- ===== src/Tests/Removal.antt =====
-- `RemoveUtxo` on the chainstate of `Tests.Unspent`.
use plairo.Common.{◌⊎◌, arith}
use plairo.Db.Chainstate.Remove.{remove_utxo-Removed}
use plairo.Db.Chainstate.Removed.{Removed, NotRemoved}
use plairo.Tests.Encodings.{toy_hash, two_outputs, two_outputs-IsStorable}
use plairo.Tests.Store.{pairs, pairs-IsStore}
use plairo.Tests.Unspent.{inserted, metadata, writes, plain-opens, holds}

remove_utxo-Removed_example :
    Removed toy_hash pairs pairs-IsStore inserted two_outputs 0
    ⊎ NotRemoved toy_hash pairs pairs-IsStore inserted two_outputs 0
remove_utxo-Removed_example =
    remove_utxo-Removed toy_hash pairs pairs-IsStore inserted two_outputs metadata 0 plain-opens
      two_outputs-IsStorable
      ((omega arith, (omega arith, (omega arith, tt))), ((omega arith, tt), tt)) writes holds
