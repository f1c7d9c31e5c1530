-- ===== src/Core/Blockchain.antt =====
-- core/blockchain.go: the chain, its nodes and its forks. A node is shared by pointers, so the
-- nodes stand in a heap, in the order of their allocation, and a pointer is an index of it.
pub mod Insert
pub mod Frame
pub mod Stored
pub mod Forks
pub mod Single
pub mod OwnHeader
pub mod Refused
use plairo.Common.{
  ℕ, zero, suc, ◌+◌, ◌-◌, ◌%◌, ◌^◌, ◌==◌, ltb, not, ◌||◌, Bool, true, false, if◌then◌else◌,
  bytes_eq, Outcome, returns, panics, runs_on,
}
use plairo.Common.{List, [], ◌∷◌, ◌++◌, length, get_elem?, Option, none, some, ◌>>=◌}
use plairo.Core.Validate.{Ecdsa}
use plairo.Core.Mempool.{PoolCall, accepted, refused, remove_block}
use plairo.Core.Header.{BlockHeader, HeaderError, Verdict, rejected, deeper, get_hash}
use plairo.Core.CState.{CState}
use plairo.Core.Block.{Block, get_block_header, get_undo_data}
use plairo.Core.BlockCheck.{World, BlockError, header_error, validate_block, confirm_as_valid}

pub record BNode : Type 0 where
  pub previous_b_node : Option ℕ
  pub next_b_node : Option ℕ
  pub header : BlockHeader
  pub height : ℕ
  pub is_fork : Bool

pub record Fork : Type 0 where
  pub fork_root : ℕ
  pub fork_head : ℕ
  pub max_height : ℕ

pub record Blockchain : Type 0 where
  pub nodes : List BNode
  pub chain : List ℕ
  pub forks : List Fork

-- The package variables of params/genesis_params.go.
pub record Genesis : Type 0 where
  pub merkle_root : List ℕ
  pub target_bits : ℕ
  pub nonce : ℕ

unfoldable pub create_genesis_node : Genesis → BNode
create_genesis_node g = record {
  previous_b_node = none;
  next_b_node = none;
  header = record {
    previous_block_hash = [];
    merkle_root = g.merkle_root;
    timestamp = 0;
    nonce = g.nonce;
    target_bits = g.target_bits;
  };
  height = 0;
  is_fork = false;
}

unfoldable pub create_blockchain : Genesis → Blockchain
create_blockchain g = record { nodes = create_genesis_node g ∷ []; chain = 0 ∷ []; forks = [] }

-- A quick way to check if a fork should be considered.
unfoldable pub could_reach : Fork → ℕ → Bool
could_reach f height = f.max_height == (height + 2 ^ 32 - 1) % 2 ^ 32

-- The node that a pointer of the chain stands for.
abbrev pub node_at : Blockchain → ℕ → Option BNode
node_at bc index = get_elem? bc.chain index >>= λ p. get_elem? bc.nodes p

unfoldable pub get_header_at : Blockchain → ℕ → Option (Option BlockHeader)
get_header_at bc index =
    if ltb index (length bc.chain % 2 ^ 32)
    then (node_at bc index >>= λ bn. some (some bn.header))
    else some none

-- The element at an index, changed.
abbrev pub modify {ℓ} : {A : Type ℓ} → (A → A) → List A → ℕ → List A
modify f [] i = []
modify f (x ∷ xs) zero = f x ∷ xs
modify f (x ∷ xs) (suc i) = x ∷ modify f xs i

-- A node for a block's header, behind another.
abbrev pub new_node : Option ℕ → BlockHeader → ℕ → Bool → BNode
new_node previous header height is_fork = record {
  previous_b_node = previous;
  next_b_node = none;
  header = header;
  height = height;
  is_fork = is_fork;
}

-- A new fork with one node, beside the node of the same height.
abbrev pub open_fork : Blockchain → BNode → BlockHeader → ℕ → Blockchain
open_fork bc conflict_node header height = record bc {
  nodes = bc.nodes ++ (new_node conflict_node.previous_b_node header height true ∷ []);
  forks =
      bc.forks
      ++ (record { fork_root = length bc.nodes; fork_head = length bc.nodes; max_height = height }
          ∷ []);
}

abbrev pub extend_fork : Blockchain → ℕ → Fork → BlockHeader → ℕ → Blockchain
extend_fork bc i f header height = record bc {
  nodes = bc.nodes ++ (new_node (some f.fork_head) header height true ∷ []);
  forks = modify (λ g. record g { fork_head = length bc.nodes; max_height = height }) bc.forks i;
}

-- The new node is linked behind the last one; the chain is left as it is.
abbrev pub link_node : Blockchain → ℕ → BlockHeader → ℕ → Blockchain
link_node bc last header height = record bc {
  nodes =
      modify (λ bn. record bn { next_b_node = some (length bc.nodes) }) bc.nodes last
      ++ (new_node (some last) header height false ∷ []);
}

-- The interface `iStorage` of the block storage, without GetBlockData, which core never calls. A block comes with what `GetUndoData` gives for it.
pub record IStorage : Type 1 where
  pub Storage : Type 0
  pub Error : Type 0
  pub write_block :
      Storage → Block → Outcome (List ℕ × List ℕ) → ℕ → Outcome (Storage × Option Error)

pub data ChainError (cs : CState) (st : IStorage) : Type 0 where
  invalid_link invalid_height : ChainError cs st
  block_error : BlockError cs → ChainError cs st
  storage_error : IStorage.Error st → ChainError cs st

-- The blockchain with the package variables.
pub record Ledger (cs : CState) (st : IStorage) : Type 0 where
  pub blockchain : Blockchain
  pub world : World cs
  pub storage : IStorage.Storage st

module _ (sha256 : List ℕ → List ℕ) where
  unfoldable pub could_attach : Blockchain → Fork → List ℕ → Option Bool
  could_attach bc f hash_link = get_elem? bc.nodes f.fork_head >>= λ head.
      some (bytes_eq (get_hash sha256 head.header) hash_link)

  -- The first fork that the block fits: its index. `none` is a panic.
  unfoldable pub find_fork : Blockchain → List Fork → ℕ → ℕ → List ℕ → Option (Option (ℕ × Fork))
  find_fork bc [] i height hash_link = some none
  find_fork bc (f ∷ forks) i height hash_link =
      let rest = find_fork bc forks (suc i) height hash_link in
      if not (could_reach f height)
      then rest
      else (could_attach bc f hash_link >>= λ attaches.
          if attaches then some (some (i, f)) else rest)
