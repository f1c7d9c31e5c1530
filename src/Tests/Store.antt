-- ===== src/Tests/Store.antt =====
-- The database wrapper over a list of keys and values.
use plairo.Common.{returns}
use plairo.Common.{Bool-cases, inl, inr, ◌≢◌, ◌∙◌, ap, bytes_eq→eq}
use plairo.Common.{ℕ, ◌≡◌, refl, sym, unsome, arith, true, if◌then◌else◌}
use mathlib.Core.Path.{subst}
use plairo.Common.{
  All, IsByte, List, [], ◌∷◌, Option, none, some, length, bytes_eq, bytes_eq_refl, bytes_ne,
}
use plairo.Db.Wrapper.{
  LevelDb, IsStore, DbError, Reply, found, no_value, not_found, DbWrapper, obfuscate_value,
  obfuscate_from, insert_value, page_insert, page_insert_loop, page_get,
}
use plairo.Db.Wrapper.Obfuscation.{IsKey, obfuscate_value_twice}
use plairo.Db.Wrapper.Ending.{page_insert-returns}
use plairo.Db.Wrapper.RoundTrip.{page_get-page_insert}

abbrev pub Pairs : Type 0
Pairs = List (List ℕ × List ℕ)

abbrev pub look : Pairs → List ℕ → Reply
look [] k = no_value not_found
look ((j, v) ∷ d) k = if bytes_eq j k then found v else look d k

abbrev pub without : List ℕ → Pairs → Pairs
without k [] = []
without k ((j, v) ∷ d) = if bytes_eq j k then without k d else (j, v) ∷ without k d

-- The writes of a batch, in order.
abbrev pub put_all : Pairs → Pairs → Pairs
put_all [] d = d
put_all ((k, v) ∷ writes) d = put_all writes ((k, v) ∷ d)

abbrev pub pairs : LevelDb
pairs = record {
  Db = Pairs;
  get = look;
  put = λ d k v. some ((k, v) ∷ d);
  delete = λ d k. some (without k d);
  write = λ d writes. some (put_all writes d);
}

look-without_self : (k : List ℕ) (d : Pairs) → look (without k d) k ≡ no_value not_found
look-without_self k [] = refl
look-without_self k ((j, v) ∷ d) = elim (Bool-cases (bytes_eq j k)) [
  | inl same ↦ rw same (look-without_self k d)
  | inr other ↦ rw (other, other) (look-without_self k d)
]

look-without_ne : (k j : List ℕ) (d : Pairs) → j ≢ k → look (without k d) j ≡ look d j
look-without_ne k j [] ne = refl
look-without_ne k j ((i, v) ∷ d) ne = elim (Bool-cases (bytes_eq i k)) [
  | inl same ↦
      rw (same, bytes_ne i j (λ q. ne (sym q ∙ bytes_eq→eq i k same))) (look-without_ne k j d ne)
  | inr other ↦ rw other (ap (λ r. if bytes_eq i j then found v else r) (look-without_ne k j d ne))
]

pub pairs-IsStore : IsStore pairs
pairs-IsStore = record {
  get-put_self =
      λ d d' k v p. subst (λ d. look d k ≡ found v) (unsome p) (rw (bytes_eq_refl k) refl);
  get-put_ne = λ d d' k v j p ne.
      subst (λ u. look u j ≡ look d j) (unsome p) (rw (bytes_ne k j (λ q. ne (sym q))) refl);
  get-delete_self =
      λ d d' k p. subst (λ u. look u k ≡ no_value not_found) (unsome p) (look-without_self k d);
  get-delete_ne =
      λ d d' k j p ne. subst (λ u. look u j ≡ look d j) (unsome p) (look-without_ne k j d ne);
}

abbrev key : List ℕ
key = 0xa5 ∷ 0x3c ∷ []

key-IsKey : IsKey key
key-IsKey = record { nonempty = omega arith; key_bytes = (omega arith, (omega arith, tt)) }

abbrev value : List ℕ
value = 1 ∷ 2 ∷ 3 ∷ 4 ∷ 5 ∷ []

value-AllBytes : All IsByte value
value-AllBytes = (omega arith, (omega arith, (omega arith, (omega arith, (omega arith, tt)))))

obfuscate_value_twice_example :
    (hidden : List ℕ) × (obfuscate_value key value ≡ some hidden)
    × (length hidden ≡ 5)
    × (obfuscate_value key hidden ≡ some value)
obfuscate_value_twice_example = obfuscate_value_twice key value key-IsKey value-AllBytes

abbrev empty : DbWrapper pairs
empty = record { is_obfuscated = true; db = []; obfuscation_key = key; current_batch = none }

empty-opens : empty.is_obfuscated ≡ true → IsKey key
empty-opens on = key-IsKey

-- Five bytes on pages of two: the third and the fifth byte come back as 0.
abbrev stored : DbWrapper pairs
stored = record empty {
  db =
      (7 ∷ 2 ∷ [], (0xa5) ∷ [])
      ∷ (7 ∷ 1 ∷ [], (0xa5) ∷ (0x38) ∷ (0xa5) ∷ [])
      ∷ (7 ∷ 0 ∷ [], (0xa4) ∷ (0x3e) ∷ (0xa5) ∷ [])
      ∷ [];
}

stores : page_insert pairs empty (7 ∷ []) value 2 ≡ returns (stored, none)
unfolding page_insert page_insert_loop insert_value obfuscate_value obfuscate_from
stores = refl

page_get-page_insert_example :
    page_get pairs stored (7 ∷ []) 2 ≡ returns (some (1 ∷ 2 ∷ 0 ∷ 4 ∷ 0 ∷ []))
page_get-page_insert_example =
    page_get-page_insert pairs pairs-IsStore (7 ∷ []) 2 (omega arith) empty stored value empty-opens
      value-AllBytes (omega arith) stores

page_insert-returns_example :
    (d' : DbWrapper pairs) × (e : Option DbError) × (page_insert pairs empty (7 ∷ []) value 2
      ≡ returns (d', e))
page_insert-returns_example =
    page_insert-returns pairs 2 (omega arith) empty (7 ∷ []) value empty-opens value-AllBytes
