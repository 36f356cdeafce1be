-- ===== src/Acl/SubDomainsTree.antt =====
-- crates/shadowsocks-service/src/acl/sub_domains_tree.rs: a set of domain names that contains all
-- their subdomains, as a tree of labels from the right. A `HashMap` is an association list of which
-- the first entry of a key counts.
pub mod Contains
use mobile_android_obfuscati.Common.{
  ℕ, Bool, true, false, List, [], ◌∷◌, if◌then◌else◌, Option, none, some,
}
use mobile_android_obfuscati.Common.Strings.{str_eq, to_ascii_lowercase, split}
use mathlib.Core.List.{reverse}

mutual
  pub data DomainPart : Type 0 where
    part : Bool → Children → DomainPart

  pub data Children : Type 0 where
    nil : Children
    entry : List ℕ → DomainPart → Children → Children

-- `DomainPart::new`
abbrev new_part : DomainPart
new_part = DomainPart.part false Children.nil

unfoldable pub new : Children
new = Children.nil

-- `HashMap::get`
unfoldable pub get : List ℕ → Children → Option DomainPart
get k Children.nil = none
get k (Children.entry j p m) = if str_eq j k then some p else get k m

-- `HashMap::entry(k).or_insert_with(DomainPart::new)`, changed by `f`.
unfoldable pub update : List ℕ → (DomainPart → DomainPart) → Children → Children
update k f Children.nil = Children.entry k (f new_part) Children.nil
update k f (Children.entry j p m) =
    if str_eq j k then Children.entry j (f p) m else Children.entry j p (update k f m)

-- One turn of the loop of `insert` on the entry of a part: `rest` are the parts that follow, and
-- `go_on` is the rest of the loop.
abbrev visit : List (List ℕ) → (Children → Children) → DomainPart → DomainPart
visit rest go_on (DomainPart.part true children) = DomainPart.part true children
visit [] go_on (DomainPart.part false children) = DomainPart.part true Children.nil
visit (r ∷ rest) go_on (DomainPart.part false children) = DomainPart.part false (go_on children)

unfoldable pub insert_parts : List (List ℕ) → Children → Children
insert_parts [] m = m
insert_parts (p ∷ rest) m =
    let go_on = insert_parts rest in update (to_ascii_lowercase p) (visit rest go_on) m

-- `value.rsplit('.')`
abbrev pub rsplit : List ℕ → List (List ℕ)
rsplit value = reverse (split b'.' value)

unfoldable pub insert : Children → List ℕ → Children
insert m value = insert_parts (rsplit value) m

unfoldable pub contains_parts : List (List ℕ) → Children → Bool
contains_parts [] m = false
contains_parts (p ∷ rest) m = elim (get p m) [
  | none ↦ false
  | some (DomainPart.part included children) ↦
      let below = contains_parts rest children in if included then true else below
]

unfoldable pub contains : Children → List ℕ → Bool
contains m value = contains_parts (rsplit value) m

unfoldable pub is_empty : Children → Bool
is_empty Children.nil = true
is_empty (Children.entry k p m) = false
