-- ===== src/Db/Wrapper.antt =====
-- db/dbwrapper.go: keys, obfuscation, batches and paging over goleveldb, which is the parameter
-- `LevelDb`.
pub mod Obfuscation
pub mod Paging
pub mod RoundTrip
pub mod Ending
use Prim.Native.Nat.{bit_xor}
use plairo.Common.{Outcome, returns, panics, runs_on}
use plairo.Common.{
  ℕ, zero, suc, ◌+◌, ◌-◌, ◌%◌, ◌==◌, ltb, not, Bool, true, false, if◌then◌else◌, ◌≡◌, ◌≢◌,
}
use plairo.Common.{List, [], ◌∷◌, ◌++◌, length, take, drop, get_elem?, Option, none, some, ◌>>=◌}

pub data DbError : Type 0 where
  not_found failed : DbError

pub data Reply : Type 0 where
  found : List ℕ → Reply
  no_value : DbError → Reply

-- The calls of goleveldb that the code makes. `none` is an error, and leaves the store as it was.
pub record LevelDb : Type 1 where
  pub Db : Type 0
  pub get : Db → List ℕ → Reply
  pub put : Db → List ℕ → List ℕ → Option Db
  pub delete : Db → List ℕ → Option Db
  pub write : Db → List (List ℕ × List ℕ) → Option Db

-- What the code relies on: a key reads back the last value put and nothing once it is deleted, and
-- other keys are left alone.
pub record IsStore (l : LevelDb) : Type 0 where
  pub get-put_self :
      (d d' : LevelDb.Db l) (k v : List ℕ) → l.put d k v ≡ some d' → l.get d' k ≡ found v
  pub get-put_ne :
      (d d' : LevelDb.Db l) (k v j : List ℕ)
      → l.put d k v ≡ some d'
      → j ≢ k
      → l.get d' j ≡ l.get d j
  pub get-delete_self :
      (d d' : LevelDb.Db l) (k : List ℕ) → l.delete d k ≡ some d' → l.get d' k ≡ no_value not_found
  pub get-delete_ne :
      (d d' : LevelDb.Db l) (k j : List ℕ) → l.delete d k ≡ some d' → j ≢ k → l.get d' j ≡ l.get d j

unfoldable pub build_key : ℕ → List ℕ → List ℕ
build_key key_type bytes = key_type ∷ bytes

-- The loop of `obfuscateValue` from index `i` on; `i % 0` panics.
unfoldable pub obfuscate_from : List ℕ → ℕ → List ℕ → Option (List ℕ)
obfuscate_from obfuscation_key i [] = some []
obfuscate_from obfuscation_key i (val ∷ value) =
    (if length obfuscation_key == 0
      then none
      else get_elem? obfuscation_key (i % length obfuscation_key))
    >>= λ k. obfuscate_from obfuscation_key (suc i) value >>= λ res. some (bit_xor val k ∷ res)

unfoldable pub obfuscate_value : List ℕ → List ℕ → Option (List ℕ)
obfuscate_value obfuscation_key value = obfuscate_from obfuscation_key 0 value

-- `key[len(key)-1]` counts the pages, as a byte.
abbrev pub page_key : List ℕ → ℕ → List ℕ
page_key key page = key ++ ((page % 256) ∷ [])

-- `append(value[idx:idx+maxPageSize], 0)` has room behind the slice: the 0 is written over the first
-- byte of the next page.
abbrev pub overwrite_first : List ℕ → List ℕ
overwrite_first [] = []
overwrite_first (x ∷ xs) = 0 ∷ xs

module _ (l : LevelDb) where
  -- `currentBatch` is nil, or the writes of a batch in order.
  pub record DbWrapper : Type 0 where
    pub is_obfuscated : Bool
    pub db : LevelDb.Db l
    pub obfuscation_key : List ℕ
    pub current_batch : Option (List (List ℕ × List ℕ))

  -- A method that changes the wrapper returns it with its error, `none` for nil.
  abbrev pub Called : Type 0
  Called = Outcome (DbWrapper × Option DbError)

  abbrev pub put_raw : DbWrapper → List ℕ → List ℕ → Called
  put_raw d key value = elim (l.put d.db key value) [
    | none ↦ returns (d, some failed)
    | some db' ↦ returns (record d { db = db' }, none)
  ]

  unfoldable pub insert_value : DbWrapper → List ℕ → List ℕ → Called
  insert_value d key value =
      if d.is_obfuscated
      then elim (obfuscate_value d.obfuscation_key value) [
        | none ↦ panics
        | some hidden ↦ put_raw d key hidden
      ]
      else put_raw d key value

  unfoldable pub put_in_batch : DbWrapper → List ℕ → List ℕ → DbWrapper
  put_in_batch d key value = record d {
    current_batch = some (elim d.current_batch [
      | none ↦ (key, value) ∷ []
      | some batch ↦ batch ++ ((key, value) ∷ [])
    ]);
  }

  -- A nil batch writes nothing.
  unfoldable pub write_batch : DbWrapper → DbWrapper × Option DbError
  write_batch d = elim (l.write d.db (elim d.current_batch [ none ↦ [] | some batch ↦ batch ])) [
    | none ↦ (d, some failed)
    | some db' ↦ (record d { db = db'; current_batch = none }, none)
  ]

  unfoldable pub get_value : DbWrapper → List ℕ → Outcome Reply
  get_value d key = elim (l.get d.db key) [
    | no_value e ↦ returns (no_value e)
    | found val ↦
        if d.is_obfuscated
        then elim (obfuscate_value d.obfuscation_key val) [
          | none ↦ panics
          | some shown ↦ returns (found shown)
        ]
        else returns (found val)
  ]

  unfoldable pub remove_value : DbWrapper → List ℕ → DbWrapper × Option DbError
  remove_value d key = elim (l.delete d.db key) [
    | none ↦ (d, some failed)
    | some db' ↦ (record d { db = db' }, none)
  ]

  abbrev pub next_page : Called → (DbWrapper → Called) → Called
  next_page (returns (d, none)) f = f d
  next_page (returns (d, some e)) f = returns (d, some e)
  next_page panics f = panics
  next_page runs_on f = runs_on

  -- The loop of `PageInsert`; `value` is `value[idx:]` and `rem` its length.
  unfoldable pub page_insert_loop : ℕ → DbWrapper → List ℕ → ℕ → List ℕ → ℕ → Called
  page_insert_loop zero d key page value max_page_size = runs_on
  page_insert_loop (suc fuel) d key page value max_page_size =
      elim (ltb max_page_size (length value)) [
        | true ↦
            next_page (insert_value d (page_key key page) (take max_page_size value ++ (0 ∷ [])))
              λ d'.
                page_insert_loop fuel d' key (suc page) (overwrite_first (drop max_page_size value))
                  max_page_size
        | false ↦ insert_value d (page_key key page) value
      ]

  -- Every round takes at least a byte, unless pages have size 0.
  unfoldable pub page_insert : DbWrapper → List ℕ → List ℕ → ℕ → Called
  page_insert d key value max_page_size =
      page_insert_loop (suc (length value)) d key 0 value max_page_size

  -- The loop of `PageGet`; `none` is `nil, false`.
  unfoldable pub page_get_loop : ℕ → DbWrapper → List ℕ → ℕ → ℕ → List ℕ → Outcome (Option (List ℕ))
  page_get_loop zero d key page max_page_size res = runs_on
  page_get_loop (suc fuel) d key page max_page_size res = elim (get_value d (page_key key page)) [
    | panics ↦ panics
    | runs_on ↦ runs_on
    | returns (no_value e) ↦ returns none
    | returns (found bytes) ↦ elim (length bytes == max_page_size + 1) [
      | false ↦ returns (some (res ++ bytes))
      | true ↦
          page_get_loop fuel d key (suc page) max_page_size (res ++ take (length bytes - 1) bytes)
    ]
  ]

  -- The page number returns to 0 after 256 pages: 257 rounds without an end mean that there is none.
  unfoldable pub page_get : DbWrapper → List ℕ → ℕ → Outcome (Option (List ℕ))
  page_get d key max_page_size = page_get_loop 257 d key 0 max_page_size []
