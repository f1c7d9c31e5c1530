-- ===== src/Db/Opening.antt =====
-- `NewDBwrapper`, `generateObfuscationKey` and `constructObfKeyKey` of db/dbwrapper.go. What
-- `leveldb.OpenFile` gives (`none` is an error) and the random number are parameters.
pub mod Again
use plairo.Common.{ℕ, Bool, true, false, if◌then◌else◌, List, [], ◌∷◌, Option, none, some}
use plairo.Utils.Serializer.{serialize_uint64}
use plairo.Db.Wrapper.{LevelDb, Reply, found, no_value, not_found, failed, DbWrapper}

unfoldable pub generate_obfuscation_key : ℕ → List ℕ
generate_obfuscation_key rnd = serialize_uint64 rnd false

-- 0x0e, 0x00, "obfuscate_key"
abbrev pub obf_key_key : List ℕ
obf_key_key =
    0x0e ∷ 0x00 ∷ 111 ∷ 98 ∷ 102 ∷ 117 ∷ 115 ∷ 99 ∷ 97 ∷ 116 ∷ 101 ∷ 95 ∷ 107 ∷ 101 ∷ 121 ∷ []

module _ (l : LevelDb) where
  abbrev wrapper_of : Bool → LevelDb.Db l → List ℕ → DbWrapper l
  wrapper_of is_obfuscated db key = record {
    is_obfuscated = is_obfuscated;
    db = db;
    obfuscation_key = key;
    current_batch = none;
  }

  -- `none` is a panic. An error of `Get` other than `ErrNotFound` leaves a nil key.
  unfoldable pub new_db_wrapper : Option (LevelDb.Db l) → ℕ → Bool → Option (DbWrapper l)
  new_db_wrapper none rnd is_obfuscated = none
  new_db_wrapper (some db) rnd false = some (wrapper_of false db [])
  new_db_wrapper (some db) rnd true = elim (l.get db obf_key_key) [
    | found key ↦ some (wrapper_of true db key)
    | no_value failed ↦ some (wrapper_of true db [])
    | no_value not_found ↦
        let key = generate_obfuscation_key rnd in
        elim (l.put db obf_key_key key) [ none ↦ none | some db' ↦ some (wrapper_of true db' key) ]
  ]
