-- ===== src/Base/Maps.antt =====
-- Go's maps with string keys, as association lists. `lookup` is `v, ok := m[k]`, `insert` is
-- `m[k] = v`, `update_all` a loop over the map that assigns each key anew.
use Prim.Native.String.{String}
use mathlib.Core.Path.{◌≡◌, refl}
use mathlib.Core.Bool.{Bool, true, false}
use mathlib.Core.Option.{Option, none, some}
use mathlib.Core.List.{List, [], ◌∷◌}
use native.Mathlib.Omega.{arith}
use text.Mathlib.Text.{◌==◌ as str_eq}
use text.Mathlib.TextEquality.{eq_iff}
use text.Mathlib.TextPositions.{eq_refl}
use fluentwork_backend.Base.Tests.{if◌then◌else◌, is_some}

abbrev pub Dict {ℓ} : Type ℓ → Type ℓ
Dict V = List (String × V)

module _ {ℓ} {V : Type ℓ} where
  unfoldable pub lookup : String → Dict V → Option V
  lookup key [] = none
  lookup key ((other, value) ∷ entries) =
      if str_eq other key then some value else lookup key entries

  unfoldable pub insert : String → V → Dict V → Dict V
  insert key value [] = (key, value) ∷ []
  insert key value ((other, held) ∷ entries) =
      if str_eq other key then (key, value) ∷ entries else (other, held) ∷ insert key value entries

  unfoldable pub update_all : (V → V) → Dict V → Dict V
  update_all f [] = []
  update_all f ((other, value) ∷ entries) = (other, f value) ∷ update_all f entries

  -- The values, in the order in which a loop meets them.
  abbrev pub values : Dict V → List V
  values [] = []
  values ((other, value) ∷ entries) = value ∷ values entries

  -- `delete(m, k)`
  unfoldable pub remove : String → Dict V → Dict V
  remove key [] = []
  remove key ((other, value) ∷ entries) =
      let rest = remove key entries in if str_eq other key then rest else (other, value) ∷ rest

  -- A loop over the map that deletes the keys whose value passes a test.
  unfoldable pub remove_where : (V → Bool) → Dict V → Dict V
  remove_where test [] = []
  remove_where test ((other, value) ∷ entries) =
      let rest = remove_where test entries in if test value then rest else (other, value) ∷ rest

  -- No key stands twice.
  unfoldable pub HasKeysOnce : Dict V → Type 0
  HasKeysOnce [] = Unit
  HasKeysOnce ((other, value) ∷ entries) =
      (is_some (lookup other entries) ≡ false) × HasKeysOnce entries

  pub lookup-insert :
      (key other : String) (value : V) (entries : Dict V)
      → lookup other (insert key value entries)
        ≡ (if str_eq key other then some value else lookup other entries)
  unfolding lookup insert
  lookup-insert key other value [] = refl
  lookup-insert key other value ((first, held) ∷ entries) = ground (
    arith,
    eq_iff key other,
    eq_iff first key,
    eq_iff first other,
    lookup-insert key other value entries,
  )

  pub lookup-insert_self :
      (key : String) (value : V) (entries : Dict V)
      → lookup key (insert key value entries) ≡ some value
  lookup-insert_self key value entries = simp (lookup-insert, eq_refl)

  pub lookup-update_all :
      (f : V → V) (key : String) (entries : Dict V)
      → lookup key (update_all f entries)
        ≡ elim (lookup key entries) [ none ↦ none | some value ↦ some (f value) ]
  unfolding lookup update_all
  lookup-update_all f key [] = refl
  lookup-update_all f key ((other, value) ∷ entries) =
      ground (arith, lookup-update_all f key entries)

  pub insert-HasKeysOnce :
      (key : String) (value : V) (entries : Dict V)
      → HasKeysOnce entries
      → HasKeysOnce (insert key value entries)
  unfolding HasKeysOnce insert lookup
  insert-HasKeysOnce key value [] h = (refl, tt)
  insert-HasKeysOnce key value ((other, held) ∷ entries) h = ground (
    arith,
    eq_iff other key,
    eq_iff key other,
    lookup-insert key other value entries,
    insert-HasKeysOnce key value entries h.1,
  )

  -- A write removes no key.
  pub is_some-lookup-insert :
      (key other : String) (value : V) (entries : Dict V)
      → is_some (lookup other entries) ≡ true
      → is_some (lookup other (insert key value entries)) ≡ true
  is_some-lookup-insert key other value entries h =
      ground (arith, lookup-insert key other value entries)

  -- Writing back what a key holds changes nothing.
  pub insert-lookup :
      (key : String) (value : V) (entries : Dict V)
      → lookup key entries ≡ some value
      → insert key value entries ≡ entries
  unfolding lookup insert
  insert-lookup key value [] h = cc
  insert-lookup key value ((other, held) ∷ entries) h =
      ground (arith, eq_iff other key, insert-lookup key value entries)

  pub lookup-remove :
      (key other : String) (entries : Dict V)
      → lookup other (remove key entries)
        ≡ (if str_eq key other then none else lookup other entries)
  unfolding lookup remove
  lookup-remove key other [] = ground (arith)
  lookup-remove key other ((first, held) ∷ entries) = ground (
    arith,
    eq_iff key other,
    eq_iff first key,
    eq_iff first other,
    lookup-remove key other entries,
  )

  -- What is left of a map after such a loop fails the test.
  pub lookup-remove_where :
      (test : V → Bool) (key : String) (value : V) (entries : Dict V)
      → lookup key (remove_where test entries) ≡ some value
      → test value ≡ false
  unfolding lookup remove_where
  lookup-remove_where test key value [] h = absurd (cc h)
  lookup-remove_where test key value ((first, held) ∷ entries) h =
      ground (arith, lookup-remove_where test key value entries)

  -- A value that fails the test stays.
  pub lookup-remove_where_kept :
      (test : V → Bool) (key : String) (value : V) (entries : Dict V)
      → lookup key entries ≡ some value
      → test value ≡ false
      → lookup key (remove_where test entries) ≡ some value
  unfolding lookup remove_where
  lookup-remove_where_kept test key value [] h k = absurd (cc h)
  lookup-remove_where_kept test key value ((first, held) ∷ entries) h k =
      ground (arith, lookup-remove_where_kept test key value entries)

  lookup-remove_where-none :
      (test : V → Bool) (key : String) (entries : Dict V)
      → lookup key entries ≡ none
      → lookup key (remove_where test entries) ≡ none
  unfolding lookup remove_where
  lookup-remove_where-none test key [] h = refl
  lookup-remove_where-none test key ((first, held) ∷ entries) h =
      ground (arith, lookup-remove_where-none test key entries)

  is_some-lookup-remove_where :
      (test : V → Bool) (key : String) (entries : Dict V)
      → is_some (lookup key entries) ≡ false
      → is_some (lookup key (remove_where test entries)) ≡ false
  unfolding lookup remove_where
  is_some-lookup-remove_where test key [] h = refl
  is_some-lookup-remove_where test key ((first, held) ∷ entries) h =
      ground (arith, is_some-lookup-remove_where test key entries)

  -- Where no key stands twice, such a loop leaves nothing at the key of a value that passes the test.
  pub lookup-remove_where_gone :
      (test : V → Bool) (key : String) (value : V) (entries : Dict V)
      → HasKeysOnce entries
      → lookup key entries ≡ some value
      → test value ≡ true
      → lookup key (remove_where test entries) ≡ none
  unfolding lookup remove_where HasKeysOnce
  lookup-remove_where_gone test key value [] once h k = refl
  lookup-remove_where_gone test key value ((first, held) ∷ entries) once h k = ground (
    arith,
    eq_iff first key,
    lookup-remove_where-none test key entries,
    lookup-remove_where_gone test key value entries once.1,
  )

  pub remove_where-HasKeysOnce :
      (test : V → Bool) (entries : Dict V)
      → HasKeysOnce entries
      → HasKeysOnce (remove_where test entries)
  unfolding HasKeysOnce remove_where
  remove_where-HasKeysOnce test [] h = tt
  remove_where-HasKeysOnce test ((first, held) ∷ entries) h = ground (
    arith,
    remove_where-HasKeysOnce test entries h.1,
    is_some-lookup-remove_where test first entries h.0,
  )

  -- What is left of a map was there before.
  pub remove_where-lookup :
      (test : V → Bool) (key : String) (value : V) (entries : Dict V)
      → HasKeysOnce entries
      → lookup key (remove_where test entries) ≡ some value
      → lookup key entries ≡ some value
  unfolding lookup remove_where HasKeysOnce
  remove_where-lookup test key value [] once h = h
  remove_where-lookup test key value ((first, held) ∷ entries) once h = ground (
    arith,
    eq_iff first key,
    remove_where-lookup test key value entries once.1,
    is_some-lookup-remove_where test key entries,
  )
