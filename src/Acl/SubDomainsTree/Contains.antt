-- ===== src/Acl/SubDomainsTree/Contains.antt =====
-- `contains` after `insert`.
use mobile_android_obfuscati.Common.{
  ℕ, ◌≡◌, refl, arith, Bool, true, false, List, [], ◌∷◌, if◌then◌else◌, Option, none, some, ◌&&◌,
  ◌||◌, ◌==◌, Bool-cases, inl, inr, ◌∙◌, sym,
}
use mobile_android_obfuscati.Common.Strings.{
  str_eq, str_eq→eq, str_eq_refl, to_ascii_lowercase, split,
}
use mobile_android_obfuscati.Acl.SubDomainsTree.{
  DomainPart, Children, new, new_part, get, update, visit, insert_parts, insert, contains_parts,
  contains, rsplit,
}
use mathlib.Core.List.{reverse_aux}

-- Whether the parts are the lower-case form of the first of the others.
abbrev pub is_suffix_of : List (List ℕ) → List (List ℕ) → Bool
is_suffix_of [] qs = true
is_suffix_of (p ∷ ps) [] = false
is_suffix_of (p ∷ ps) (q ∷ qs) = str_eq (to_ascii_lowercase p) q && is_suffix_of ps qs

abbrev value_or_new : Option DomainPart → DomainPart
value_or_new none = new_part
value_or_new (some p) = p

get-update :
    (k j : List ℕ) (f : DomainPart → DomainPart) (m : Children)
    → get j (update k f m) ≡ (if str_eq k j then some (f (value_or_new (get j m))) else get j m)
unfolding get update
get-update k j f Children.nil = refl
get-update k j f (Children.entry i p m) =
    ground (arith, str_eq→eq i k, str_eq→eq i j, str_eq→eq k j, str_eq_refl i, get-update k j f m)

contains_parts-nil : (qs : List (List ℕ)) → contains_parts qs Children.nil ≡ false
unfolding contains_parts get
contains_parts-nil [] = refl
contains_parts-nil (q ∷ qs) = refl

-- What `contains_parts` finds below an entry.
abbrev contains_entry : List (List ℕ) → Option DomainPart → Bool
contains_entry qs none = false
contains_entry qs (some (DomainPart.part included children)) =
    if included then true else contains_parts qs children

contains_parts-cons :
    (q : List ℕ) (qs : List (List ℕ)) (m : Children)
    → contains_parts (q ∷ qs) m ≡ contains_entry qs (get q m)
unfolding contains_parts
contains_parts-cons q qs m = go (get q m)
  where
    go :
        (e : Option DomainPart)
        → (elim e [
          | none ↦ false
          | some (DomainPart.part included children) ↦
              if included then true else contains_parts qs children
        ])
          ≡ contains_entry qs e
    go none = refl
    go (some (DomainPart.part i c)) = refl

get-insert_parts :
    (p q : List ℕ) (ps : List (List ℕ)) (m : Children)
    → get q (insert_parts (p ∷ ps) m) ≡ (
        if str_eq (to_ascii_lowercase p) q
        then some (visit ps (insert_parts ps) (value_or_new (get q m)))
        else get q m)
unfolding insert_parts
get-insert_parts p q ps m = get-update (to_ascii_lowercase p) q (visit ps (insert_parts ps)) m

last_entry :
    (qs : List (List ℕ)) (e : Option DomainPart)
    → contains_entry qs (some (visit [] (insert_parts []) (value_or_new e))) ≡ true
last_entry qs none = refl
last_entry qs (some (DomainPart.part true c)) = refl
last_entry qs (some (DomainPart.part false c)) = refl

inner_entry :
    (p : List ℕ) (ps qs : List (List ℕ)) (e : Option DomainPart)
    → ((c : Children)
        → contains_parts qs (insert_parts (p ∷ ps) c)
          ≡ (contains_parts qs c || is_suffix_of (p ∷ ps) qs))
    → contains_entry qs (some (visit (p ∷ ps) (insert_parts (p ∷ ps)) (value_or_new e)))
      ≡ (contains_entry qs e || is_suffix_of (p ∷ ps) qs)
inner_entry p ps qs none ih = rw (ih, contains_parts-nil)
inner_entry p ps qs (some (DomainPart.part true c)) ih = refl
inner_entry p ps qs (some (DomainPart.part false c)) ih = ih c

or_true : (b : Bool) → (b || true) ≡ true
or_true true = refl
or_true false = refl

or_false : (b : Bool) → (b || false) ≡ b
or_false true = refl
or_false false = refl

-- A tree contains what it contained, and the subdomains of what is inserted.
contains_parts-insert_parts :
    (p : List ℕ) (ps qs : List (List ℕ)) (m : Children)
    → contains_parts qs (insert_parts (p ∷ ps) m)
      ≡ (contains_parts qs m || is_suffix_of (p ∷ ps) qs)
contains_parts-insert_parts p ps [] m = unfold contains_parts in refl
contains_parts-insert_parts p [] (q ∷ qs) m =
    rw (contains_parts-cons, get-insert_parts, contains_parts-cons)
      (elim (Bool-cases (str_eq (to_ascii_lowercase p) q)) [
        | inl same ↦ rw same (last_entry qs (get q m) ∙ sym (or_true (contains_entry qs (get q m))))
        | inr other ↦ rw other (sym (or_false (contains_entry qs (get q m))))
      ])
contains_parts-insert_parts p (p' ∷ ps) (q ∷ qs) m =
    rw (contains_parts-cons, get-insert_parts, contains_parts-cons)
      (elim (Bool-cases (str_eq (to_ascii_lowercase p) q)) [
        | inl same ↦ rw same (inner_entry p' ps qs (get q m) (contains_parts-insert_parts p' ps qs))
        | inr other ↦ rw other (sym (or_false (contains_entry qs (get q m))))
      ])

abbrev IsCons : List (List ℕ) → Type 0
IsCons xs = (p : List ℕ) × (ps : List (List ℕ)) × (xs ≡ p ∷ ps)

reverse_aux-IsCons :
    (xs : List (List ℕ)) (a : List ℕ) (acc : List (List ℕ)) → IsCons (reverse_aux xs (a ∷ acc))
reverse_aux-IsCons [] a acc = (a, acc, refl)
reverse_aux-IsCons (x ∷ xs) a acc = reverse_aux-IsCons xs x (a ∷ acc)

split-IsCons : (c : ℕ) (s : List ℕ) → IsCons (split c s)
unfolding split
split-IsCons c [] = ([], [], refl)
split-IsCons c (b ∷ s) =
    let (p, ps, e) = split-IsCons c s in
    elim (Bool-cases (b == c)) [
      | inl same ↦ ([], split c s, rw same)
      | inr other ↦ (b ∷ p, ps, rw (other, e))
    ]

rsplit-IsCons : (s : List ℕ) → IsCons (rsplit s)
rsplit-IsCons s = let (p, ps, e) = split-IsCons b'.' s in rw e (reverse_aux-IsCons ps p [])

-- A tree contains what it contained, and the domain that is inserted with all its subdomains, with
-- the labels of the domain taken in lower case and those of the query as they are.
pub contains-insert :
    (m : Children) (domain query : List ℕ)
    → contains (insert m domain) query
      ≡ (contains m query || is_suffix_of (rsplit domain) (rsplit query))
unfolding contains insert
contains-insert m domain query =
    let (p, ps, e) = rsplit-IsCons domain in
    rw e (contains_parts-insert_parts p ps (rsplit query) m)

-- The domains inserted one after the other.
abbrev pub insert_all : List (List ℕ) → Children → Children
insert_all [] m = m
insert_all (d ∷ ds) m = insert_all ds (insert m d)

-- Whether some of the domains is the query or a parent domain of it.
abbrev pub is_under_any : List (List ℕ) → List ℕ → Bool
is_under_any [] query = false
is_under_any (d ∷ ds) query = is_suffix_of (rsplit d) (rsplit query) || is_under_any ds query

or_assoc : (a b c : Bool) → ((a || b) || c) ≡ (a || (b || c))
or_assoc true b c = refl
or_assoc false b c = refl

contains-insert_all_from :
    (ds : List (List ℕ)) (m : Children) (query : List ℕ)
    → contains (insert_all ds m) query ≡ (contains m query || is_under_any ds query)
contains-insert_all_from [] m query = sym (or_false (contains m query))
contains-insert_all_from (d ∷ ds) m query =
    contains-insert_all_from ds (insert m d) query
    ∙ rw (contains-insert m d query) (or_assoc (contains m query) _ _)

-- The tree of a list of domains contains a host exactly if the labels of one of them, in lower case,
-- are the last labels of the host: the pruning of covered domains, in either order, is never seen.
pub contains-insert_all :
    (ds : List (List ℕ)) (query : List ℕ)
    → contains (insert_all ds new) query ≡ is_under_any ds query
unfolding new contains
contains-insert_all ds query =
    contains-insert_all_from ds Children.nil query ∙ rw (contains_parts-nil (rsplit query)) refl
