-- ===== src/Comfy/Repository/Rows.antt =====
-- What the statements of the repositories do to a lookup.
use comfy_shell_v.Prelude.{
  String, Bool, true, false, not, ◌≡◌, refl, arith, Option, none, some, List, [], ◌∷◌, ◌++◌, ◌==◌,
  eq_iff, eq_refl, find, any, filterb, update_where, if◌then◌else◌, Bool-cases, inl, inr,
}
use mathlib.Core.List.{append-nil}
use comfy_shell_v.Db.{InstanceModelRoot}
use comfy_shell_v.Comfy.Repository.{linked_to, link_rows, linked_ids}

module _ {A : Type 0} (test : A → Bool) where
  pub find-append : (xs ys : List A) (x : A) → find test xs ≡ some x → find test (xs ++ ys) ≡ some x
  find-append [] ys x h = cc
  find-append (y ∷ xs) ys x h = ground (arith, find-append xs ys x)

  pub find-append_none :
      (xs ys : List A) → find test xs ≡ none → find test (xs ++ ys) ≡ find test ys
  find-append_none [] ys h = refl
  find-append_none (y ∷ xs) ys h = ground (arith, find-append_none xs ys)

  pub find-none_of_any : (xs : List A) → any test xs ≡ false → find test xs ≡ none
  find-none_of_any [] h = refl
  find-none_of_any (x ∷ xs) h = ground (arith, find-none_of_any xs)

  pub any_of_find : (xs : List A) (x : A) → find test xs ≡ some x → any test xs ≡ true
  any_of_find [] x h = cc
  any_of_find (y ∷ xs) x h = ground (arith, any_of_find xs x)

  pub test_of_find : (xs : List A) (x : A) → find test xs ≡ some x → test x ≡ true
  test_of_find [] x h = cc
  test_of_find (y ∷ xs) x h = ground (arith, test_of_find xs x)

module _ {A : Type 0} (test touched : A → Bool) (change : A → A) where
  abbrev pub changed : Option A → Option A
  changed none = none
  changed (some x) = some (if touched x then change x else x)

  -- A change that the test does not see changes what is found, and not where.
  pub find-update_where :
      ((x : A) → test (change x) ≡ test x)
      → (xs : List A) → find test (update_where touched change xs) ≡ changed (find test xs)
  find-update_where h [] = refl
  find-update_where h (x ∷ xs) = ground (arith, h x, find-update_where h xs)

linked_ids-append :
    (iid : String) (xs ys : List InstanceModelRoot)
    → linked_ids iid (xs ++ ys) ≡ linked_ids iid xs ++ linked_ids iid ys
linked_ids-append iid [] ys = refl
linked_ids-append iid (x ∷ xs) ys = ground (arith, linked_ids-append iid xs ys)

linked_ids-link_rows_self :
    (iid : String) (ids : List String) → linked_ids iid (link_rows iid ids) ≡ ids
linked_ids-link_rows_self iid [] = refl
linked_ids-link_rows_self iid (id ∷ ids) =
    ground (arith, eq_refl iid, linked_ids-link_rows_self iid ids)

linked_ids-link_rows_ne :
    (iid jid : String) (ids : List String)
    → (jid == iid) ≡ false
    → linked_ids iid (link_rows jid ids) ≡ []
linked_ids-link_rows_ne iid jid [] h = refl
linked_ids-link_rows_ne iid jid (id ∷ ids) h = ground (arith, linked_ids-link_rows_ne iid jid ids h)

linked_ids-unlink_self :
    (iid : String) (links : List InstanceModelRoot)
    → linked_ids iid (filterb (λ l. not (linked_to iid l)) links) ≡ []
linked_ids-unlink_self iid [] = refl
linked_ids-unlink_self iid (l ∷ links) = ground (arith, linked_ids-unlink_self iid links)

linked_ids-unlink_ne :
    (iid jid : String) (links : List InstanceModelRoot)
    → (jid == iid) ≡ false
    → linked_ids iid (filterb (λ l. not (linked_to jid l)) links) ≡ linked_ids iid links
linked_ids-unlink_ne iid jid [] h = refl
linked_ids-unlink_ne iid jid (l ∷ links) h = ground (
  arith,
  eq_iff l.instance_id iid,
  eq_iff l.instance_id jid,
  eq_iff jid iid,
  linked_ids-unlink_ne iid jid links h,
)

-- The links after `set_model_roots`
abbrev pub relinked : String → List String → List InstanceModelRoot → List InstanceModelRoot
relinked jid ids links = filterb (λ l. not (linked_to jid l)) links ++ link_rows jid ids

-- `set_model_roots` gives its instance the new roots, and leaves those of the others.
pub linked_ids-relinked :
    (iid jid : String) (ids : List String) (links : List InstanceModelRoot)
    → linked_ids iid (relinked jid ids links) ≡ (if jid == iid then ids else linked_ids iid links)
linked_ids-relinked iid jid ids links = elim (Bool-cases (jid == iid)) [
  | inl same ↦
      rw ((eq_iff jid iid).0 same)
        (simp (linked_ids-append, linked_ids-unlink_self, linked_ids-link_rows_self, eq_refl))
  | inr other ↦
      rw
        (
          other,
          linked_ids-append iid (filterb (λ l. not (linked_to jid l)) links) (link_rows jid ids),
          linked_ids-unlink_ne iid jid links other,
          linked_ids-link_rows_ne iid jid ids other,
        )
        (append-nil _)
]
