-- ===== src/Acl/Parsing/Total.antt =====
-- Loading a file fails on a line that is not UTF-8 or on a regular expression only, and what a domain rule adds.
use mobile_android_obfuscati.Common.{
  ℕ, ◌≡◌, ◌≢◌, refl, arith, true, ◌||◌, List, [], ◌∷◌, none, some, Option-cases, Bool-cases, inl,
  inr, ◌==◌,
}
use mobile_android_obfuscati.Common.{Result, ok, err, IoErrorKind, All, ◌⊎◌}
use mobile_android_obfuscati.Common.Utf8.{is_utf8, ascii-is_utf8}
use mobile_android_obfuscati.Common.Strings.{is_ascii, strip_prefix, trim, trim_end_matches}
use mobile_android_obfuscati.Acl.Engines.{Engines}
use mobile_android_obfuscati.Acl.Rules.{new_rules}
use mobile_android_obfuscati.Acl.SubDomainsTree
use mobile_android_obfuscati.Acl.SubDomainsTree.{rsplit}
use mobile_android_obfuscati.Acl.SubDomainsTree.Contains.{is_suffix_of, contains-insert}
use mobile_android_obfuscati.Acl.AccessControl.{AccessControl}
use mobile_android_obfuscati.Acl.Parsing.{
  ParsingRules, Loading, Section, check_is_ascii, add_set_rule, add_tree_rule, into_rules, current,
  put_current, load_directive, load_trimmed, read_line, load_text, load_line, load_lines,
  load_from_file, start,
}
use mobile_android_obfuscati.Common.Strings.{bytes}

is_ascii-strip_prefix :
    (p s rest : List ℕ) → is_ascii s ≡ true → strip_prefix p s ≡ some rest → is_ascii rest ≡ true
unfolding is_ascii strip_prefix
is_ascii-strip_prefix [] s rest h k = ground arith
is_ascii-strip_prefix (a ∷ p) [] rest h k = cc
is_ascii-strip_prefix (a ∷ p) (b ∷ s) rest h k = ground (arith, is_ascii-strip_prefix p s rest)

abbrev pub Succeeds {ℓ κ} : {E : Type ℓ} {A : Type κ} → Result E A → Type (ℓ ⊔ κ)
Succeeds {A} r = (a : A) × (r ≡ ok a)

-- Every line is UTF-8.
abbrev pub AreUtf8 : List (List ℕ) → Type 0
AreUtf8 lines = All (λ line. is_utf8 line ≡ true) lines

module _ {e : Engines} where
  add_tree_rule-Succeeds :
      (r : ParsingRules e) (rule : List ℕ) → is_ascii rule ≡ true → Succeeds (add_tree_rule r rule)
  unfolding add_tree_rule check_is_ascii
  add_tree_rule-Succeeds r rule h = rw h (_, refl)

  add_set_rule-Succeeds :
      (r : ParsingRules e) (rule : List ℕ) → is_ascii rule ≡ true → Succeeds (add_set_rule r rule)
  unfolding add_set_rule check_is_ascii
  add_set_rule-Succeeds r rule h = rw h (_, refl)

  marked_rule-Succeeds :
      (l : Loading e) (line : List ℕ) → is_ascii line ≡ true → Succeeds (load_trimmed l line)
  unfolding load_trimmed
  marked_rule-Succeeds l line h = rw h (elim (Option-cases (strip_prefix (bytes "||") line)) [
    | inr (rule, tree) ↦
        let (r, added) =
          add_tree_rule-Succeeds (current l) rule (is_ascii-strip_prefix _ line rule h tree) in
        rw (tree, added) (put_current l r, refl)
    | inl no_tree ↦ rw no_tree (elim (Option-cases (strip_prefix (bytes "|") line)) [
      | inr (rule, set) ↦
          let (r, added) =
            add_set_rule-Succeeds (current l) rule (is_ascii-strip_prefix _ line rule h set) in
          rw (set, added) (put_current l r, refl)
      | inl no_set ↦ rw no_set (load_directive l line, refl)
    ])
  ])

  load_text-Succeeds : (l : Loading e) (text : List ℕ) → Succeeds (load_text l text)
  unfolding load_text
  load_text-Succeeds l [] = (l, refl)
  load_text-Succeeds l (b ∷ text) = elim (Bool-cases (b == b'#')) [
    | inl comment ↦ rw comment (l, refl)
    | inr other ↦ rw other (trimmed (trim (b ∷ text)))
  ]
    where
      trimmed : (s : List ℕ) → Succeeds (load_trimmed l s)
      trimmed s = elim (Bool-cases (is_ascii s)) [
        | inl ascii ↦ marked_rule-Succeeds l s ascii
        | inr skipped ↦ unfold load_trimmed in rw skipped (l, refl)
      ]

  into_rules-Succeeds :
      (r : ParsingRules e) → e.compile r.rules_regex ≢ none → Succeeds (into_rules r)
  unfolding into_rules
  into_rules-Succeeds r compiles = elim (Option-cases (e.compile r.rules_regex)) [
    | inl fails ↦ absurd (compiles fails)
    | inr (set, is) ↦ (new_rules r.ipv4 r.ipv6 set r.rules_set r.rules_tree, rw (is, into_rules))
  ]

  -- Lines that are UTF-8 are read to the end, whatever they say; if one is not, the loop stops with an
  -- error. It never panics.
  pub load_lines_lem :
      (l : Loading e) (lines : List (List ℕ))
      → (AreUtf8 lines × Succeeds (load_lines l lines))
        ⊎ ((AreUtf8 lines → ⊥) × (load_lines l lines ≡ err IoErrorKind.other_kind))
  unfolding load_lines load_line read_line
  load_lines_lem l [] = inl (tt, (l, refl))
  load_lines_lem l (line ∷ lines) = elim (Bool-cases (is_utf8 line)) [
    | inr broken ↦ inr (λ all. absurd (ground arith), rw broken refl)
    | inl text ↦
        let (l', one) = load_text-Succeeds l line in
        elim (load_lines_lem l' lines) [
          | inl (all, (l'', rest)) ↦ inl ((text, all), (l'', rw (text, one, rest)))
          | inr (broken, stops) ↦ inr (λ all. broken all.1, rw (text, one) stops)
        ]
  ]

  -- If the regular expressions of the three lists that were read compile, the file is loaded, with the
  -- mode that was read.
  pub load_from_file_succeeds :
      (lines : List (List ℕ)) (l : Loading e)
      → load_lines start lines ≡ ok l
      → e.compile l.outbound_block.rules_regex ≢ none
      → e.compile l.bypass.rules_regex ≢ none
      → e.compile l.proxy.rules_regex ≢ none
      → (acl : AccessControl e) × (load_from_file lines ≡ ok acl) × (acl.mode ≡ l.mode)
  unfolding load_from_file
  load_from_file_succeeds lines l read a b c =
      let (ra, ea) = into_rules-Succeeds l.outbound_block a in
      let (rb, eb) = into_rules-Succeeds l.bypass b in
      let (rc, ec) = into_rules-Succeeds l.proxy c in
      (
        record { outbound_block = ra; black_list = rb; white_list = rc; mode = l.mode },
        rw (read, ea, eb, ec),
        refl,
      )

  current-put_current : (l : Loading e) (r : ParsingRules e) → current (put_current l r) ≡ r
  unfolding current put_current
  current-put_current l r = go l.curr refl
    where
      go : (s : Section) → l.curr ≡ s → current (put_current l r) ≡ r
      go Section.outbound_block is = ground arith
      go Section.bypass is = ground arith
      go Section.proxy is = ground arith

  -- A line `||domain` in ASCII with no white space at its ends is no error, and adds the domain with its
  -- subdomains, in lower case and without the dots at its end, to the list of the current section.
  pub load_line_tree_rule :
      (l : Loading e) (domain query : List ℕ)
      → is_ascii domain ≡ true
      → trim (b'|' ∷ b'|' ∷ domain) ≡ b'|' ∷ b'|' ∷ domain
      → (l' : Loading e) × (load_line l (b'|' ∷ b'|' ∷ domain) ≡ ok l')
        × (SubDomainsTree.contains (current l').rules_tree query ≡ (
            SubDomainsTree.contains (current l).rules_tree query
            || is_suffix_of (rsplit (trim_end_matches b'.' domain)) (rsplit query)))
  unfolding load_line read_line load_text load_trimmed add_tree_rule check_is_ascii is_ascii
      strip_prefix
  load_line_tree_rule l domain query ascii trimmed =
      let tree = (current l).rules_tree in
      let stripped = trim_end_matches b'.' domain in
      let r : ParsingRules e = record (current l) {
        rules_tree = SubDomainsTree.insert tree stripped;
      } in
      (
        put_current l r,
        rw (ascii-is_utf8 (b'|' ∷ b'|' ∷ domain) ascii, trimmed, ascii) refl,
        rw (current-put_current l r) (contains-insert tree stripped query),
      )
