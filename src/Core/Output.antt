-- ===== src/Core/Output.antt =====
-- core/transaction_output.go. SHA-256 is the parameter `sha256`; an output is passed by value.
use plairo.Common.{ℕ, Bool, true, not, ◌&&◌, ◌==◌, List, ◌++◌, bytes_eq}
use plairo.Utils.Serializer.{serialize_uint32}

pub record TransactionOutput : Type 0 where
  pub parent_txid : List ℕ
  pub vout : ℕ
  pub value : ℕ
  pub script_pub_key : List ℕ
  pub output_id : List ℕ
  pub is_not_spent : Bool

pub record TransactionInput : Type 0 where
  pub output_referred : TransactionOutput
  pub script_sig : List ℕ

-- `==` of two Boolean values.
abbrev pub bool_eq : Bool → Bool → Bool
bool_eq true b = b
bool_eq Bool.false b = not b

unfoldable pub equal : TransactionOutput → TransactionOutput → Bool
equal t t2 =
    bytes_eq t.output_id t2.output_id
    && (t.value == t2.value)
    && bool_eq t.is_not_spent t2.is_not_spent
    && bytes_eq t.script_pub_key t2.script_pub_key

module _ (sha256 : List ℕ → List ℕ) where
  -- `CalculateSHA256Hash` applied twice
  abbrev pub double_hash : List ℕ → List ℕ
  double_hash msg = sha256 (sha256 msg)

  -- The identifier of the output `vout` of the transaction `parent_txid`.
  unfoldable pub output_id_of : List ℕ → ℕ → List ℕ
  output_id_of parent_txid vout = double_hash (parent_txid ++ serialize_uint32 vout Bool.false)

  unfoldable pub generate_output_id : TransactionOutput → TransactionOutput
  unfolding output_id_of
  generate_output_id t = record t { output_id = output_id_of t.parent_txid t.vout }

  unfoldable pub new_transaction_output : List ℕ → ℕ → ℕ → List ℕ → TransactionOutput
  unfolding generate_output_id
  new_transaction_output parent_txid vout value script_pub_key = generate_output_id (record {
    parent_txid = parent_txid;
    vout = vout;
    value = value;
    script_pub_key = script_pub_key;
    output_id = List.[];
    is_not_spent = true;
  })
