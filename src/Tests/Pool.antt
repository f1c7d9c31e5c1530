-- ===== src/Tests/Pool.antt =====
-- The tree of pending transactions at concrete inputs.
use plairo.Common.{
  ℕ, ◌-◌, ◌≡◌, ◌≢◌, refl, arith, List, [], ◌∷◌, length, take, none, some, false, true, ◌>>=◌,
}
use plairo.Core.Transaction.{Transaction}
use plairo.Core.Fees.{get_fees, sum_inputs, sum_outputs}
use plairo.Core.MemTree.{
  MemTree, leaf, node, Entry, create_mem_tree_node, insert, insert_at_node, rebalance_insert,
  remove_record, remove_at_node, remove_here, remove_head, remove_node, rebalance_remove,
  replace_by_child, record_equal, done, panic, stuck, get_max_elements, get_smallest_node,
  clear_smallest,
}
use plairo.Core.MemTree.Order.{entries, IsSearchTree}
use plairo.Core.MemTree.Insert.{insert_desc, IsFalling, insert-insert_desc}
use plairo.Core.MemTree.Records.{records, erase, IsRecorded}
use plairo.Core.MemTree.Removal.{remove_record-erase}
use plairo.Core.MemTree.Faults.{
  remove_record-ne-stuck, remove_record_above_root, insert_rising_panics,
}
use plairo.Core.MemTree.Max.{txs_of, get_max_elements-IsFalling}
use plairo.Common.{bytes_eq}

-- A transaction that pays `fee` and creates nothing.
abbrev paying : ℕ → List ℕ → Transaction
paying fee txid = record {
  txid = txid;
  tx_signature = [];
  block_height = 0;
  is_coinbase = false;
  inputs =
      record {
        output_referred = record {
          parent_txid = [];
          vout = 0;
          value = fee;
          script_pub_key = [];
          output_id = [];
          is_not_spent = true;
        };
        script_sig = [];
      }
      ∷ [];
  outputs = [];
}

abbrev a : Transaction
a = paying 30 (1 ∷ [])

abbrev b : Transaction
b = paying 20 (2 ∷ [])

abbrev c : Transaction
c = paying 40 (3 ∷ [])

abbrev entry_of : ℕ → Transaction → Entry
entry_of fee tx = record { key = fee; tx_rec = record { fee = fee; txid = tx.txid }; tx = tx }

abbrev pool : MemTree
pool = node (entry_of 30 a) (node (entry_of 20 b) leaf leaf [] 1) leaf [] 2

abbrev fuller_pool : MemTree
fuller_pool =
    node (entry_of 30 a) (node (entry_of 20 b) leaf leaf [] 1) (node (entry_of 40 c) leaf leaf [] 1)
      [] 2

insert-c : insert pool c ≡ some fuller_pool
unfolding insert insert_at_node create_mem_tree_node rebalance_insert get_fees sum_inputs
    sum_outputs
insert-c = refl

insert-insert_desc_example :
    IsSearchTree fuller_pool
    × (entries fuller_pool ≡ insert_desc (create_mem_tree_node c) (entries pool))
    × (IsFalling (entries pool) → IsFalling (entries fuller_pool))
insert-insert_desc_example = insert-insert_desc pool fuller_pool c (omega arith) insert-c

fuller_pool-IsSearchTree : IsSearchTree fuller_pool
fuller_pool-IsSearchTree = omega arith

fuller_pool-IsRecorded : IsRecorded fuller_pool
fuller_pool-IsRecorded = omega arith

-- The successor takes the place of the root, and the root's transaction stays.
abbrev pool_without_a : MemTree
pool_without_a =
    node (record (entry_of 40 c) { tx = a }) (node (entry_of 20 b) leaf leaf [] 1) leaf [] 2

remove_a : remove_record fuller_pool (entry_of 30 a).tx_rec ≡ done pool_without_a
unfolding remove_record remove_at_node remove_here remove_head remove_node record_equal bytes_eq
    get_smallest_node clear_smallest rebalance_remove replace_by_child
remove_a = refl

remove_record-erase_example :
    IsSearchTree pool_without_a
    × IsRecorded pool_without_a
    × (records pool_without_a ≡ erase (entry_of 30 a).tx_rec (records fuller_pool))
remove_record-erase_example =
    remove_record-erase fuller_pool pool_without_a (entry_of 30 a).tx_rec fuller_pool-IsSearchTree
      fuller_pool-IsRecorded remove_a

remove_record-ne-stuck_example : remove_record fuller_pool (entry_of 20 b).tx_rec ≢ stuck
remove_record-ne-stuck_example = remove_record-ne-stuck fuller_pool (entry_of 20 b).tx_rec

remove_record_above_root_example : remove_record fuller_pool (entry_of 40 c).tx_rec ≡ panic
remove_record_above_root_example =
    remove_record_above_root (entry_of 30 a) (node (entry_of 20 b) leaf leaf [] 1)
      (node (entry_of 40 c) leaf leaf [] 1) [] 2 (entry_of 40 c).tx_rec fuller_pool-IsSearchTree
      fuller_pool-IsRecorded (omega arith)

insert_rising_panics_example : (insert leaf b >>= λ t. insert t a >>= λ t'. insert t' c) ≡ none
unfolding get_fees sum_inputs sum_outputs
insert_rising_panics_example = insert_rising_panics b a c (omega arith) (omega arith)

get_max_elements-IsFalling_example :
    (get_max_elements fuller_pool 2
      ≡ (take 2 (txs_of (entries fuller_pool)), 2 - length (txs_of (entries fuller_pool))))
    × IsFalling (entries fuller_pool)
get_max_elements-IsFalling_example =
    get_max_elements-IsFalling fuller_pool 2 fuller_pool-IsSearchTree
