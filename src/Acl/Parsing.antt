-- ===== src/Acl/Parsing.antt =====
-- `struct ParsingRules` and `AccessControl::load_from_file` of crates/shadowsocks-service/src/acl/mod.rs.
-- The file is the list of its lines, as bytes; failures of the file system are not modelled, and of an
-- error only its kind is kept.
pub mod Total
use mobile_android_obfuscati.Common.{
  ℕ, ◌==◌, Bool, true, false, ◌&&◌, ◌||◌, List, [], ◌∷◌, ◌++◌, if◌then◌else◌, Option, none, some,
}
use mobile_android_obfuscati.Common.{Result, ok, err, panic, ◌>>=◌, IoErrorKind}
use mobile_android_obfuscati.Common.Strings.{
  bytes, str_eq, is_ascii, to_ascii_lowercase, trim, trim_end_matches, strip_prefix, replace_pair,
}
use mobile_android_obfuscati.Acl.Engines.{Engines, ParsedNet}
use mobile_android_obfuscati.Acl.Rules.{Rules, new_rules}
use mobile_android_obfuscati.Acl.SubDomainsTree
use mobile_android_obfuscati.Acl.SubDomainsTree.{Children}
use mobile_android_obfuscati.Acl.AccessControl.{AccessControl, Mode}
use mobile_android_obfuscati.Common.Utf8.{is_utf8}

module _ (e : Engines) where
  pub record ParsingRules : Type 0 where
    pub ipv4 : e.ipv4.Range
    pub ipv6 : e.ipv6.Range
    pub rules_regex : List (List ℕ)
    pub rules_set : List (List ℕ)
    pub rules_tree : Children

-- The rules that the lines are added to.
pub data Section : Type 0 where
  outbound_block bypass proxy : Section

module _ (e : Engines) where
  pub record Loading : Type 0 where
    pub mode : Mode
    pub curr : Section
    pub outbound_block : ParsingRules e
    pub bypass : ParsingRules e
    pub proxy : ParsingRules e

abbrev pub IoResult : Type 0 → Type 0
IoResult A = Result IoErrorKind A

unfoldable pub check_is_ascii : List ℕ → IoResult (List ℕ)
check_is_ascii s = if is_ascii s then ok (trim_end_matches b'.' s) else err IoErrorKind.other_kind

-- What `BufRead::lines` gives for the bytes of a line: the kind of the error is `InvalidData`.
unfoldable pub read_line : List ℕ → IoResult (List ℕ)
read_line line = if is_utf8 line then ok line else err IoErrorKind.other_kind

abbrev unescape : List ℕ → List ℕ
unescape = replace_pair b'\\' b'.'

module _ {e : Engines} where
  unfoldable pub new_parsing_rules : ParsingRules e
  new_parsing_rules = record {
    ipv4 = e.ipv4.empty;
    ipv6 = e.ipv6.empty;
    rules_regex = [];
    rules_set = [];
    rules_tree = SubDomainsTree.new;
  }

  unfoldable pub add_ipv4_rule : ParsingRules e → e.ipv4.Network → ParsingRules e
  add_ipv4_rule r rule = record r { ipv4 = e.ipv4.add r.ipv4 rule }

  unfoldable pub add_ipv6_rule : ParsingRules e → e.ipv6.Network → ParsingRules e
  add_ipv6_rule r rule = record r { ipv6 = e.ipv6.add r.ipv6 rule }

  unfoldable pub add_set_rule : ParsingRules e → List ℕ → IoResult (ParsingRules e)
  add_set_rule r rule = do
    checked ← check_is_ascii rule
    ok (record r { rules_set = to_ascii_lowercase checked ∷ r.rules_set })

  unfoldable pub add_tree_rule : ParsingRules e → List ℕ → IoResult (ParsingRules e)
  add_tree_rule r rule = do
    checked ← check_is_ascii rule
    ok (record r { rules_tree = SubDomainsTree.insert r.rules_tree checked })

  -- `add_tree_rule_inner(..).is_ok()`, or the rule as a regular expression.
  abbrev or_regex : ParsingRules e → List ℕ → IoResult (ParsingRules e) → ParsingRules e
  or_regex r rule (ok r') = r'
  or_regex r rule (err _) = record r {
    rules_regex = r.rules_regex ++ (to_ascii_lowercase rule ∷ []);
  }
  or_regex r rule panic = r

  unfoldable pub add_regex_rule : ParsingRules e → List ℕ → ParsingRules e
  add_regex_rule r rule =
      let plain = err IoErrorKind.other_kind in
      or_regex r rule (elim (e.tree_set_captures rule) [
        | none ↦ plain
        | some (some tree_rule, _) ↦
            if is_utf8 tree_rule then add_tree_rule r (unescape tree_rule) else plain
        | some (none, some set_rule) ↦
            if is_utf8 set_rule then add_set_rule r (unescape set_rule) else plain
        | some (none, none) ↦ plain
      ])

  unfoldable pub into_rules : ParsingRules e → IoResult (Rules e)
  into_rules r = elim (e.compile r.rules_regex) [
    | none ↦ err IoErrorKind.other_kind
    | some set ↦ ok (new_rules r.ipv4 r.ipv6 set r.rules_set r.rules_tree)
  ]

  -- `*curr`, and a write through it.
  unfoldable pub current : Loading e → ParsingRules e
  current l = elim l.curr [
    | Section.outbound_block ↦ l.outbound_block
    | Section.bypass ↦ l.bypass
    | Section.proxy ↦ l.proxy
  ]

  unfoldable pub put_current : Loading e → ParsingRules e → Loading e
  put_current l r = elim l.curr [
    | Section.outbound_block ↦ record l { outbound_block = r }
    | Section.bypass ↦ record l { bypass = r }
    | Section.proxy ↦ record l { proxy = r }
  ]

  abbrev add_net : ParsingRules e → ParsedNet e.ipv4.Network e.ipv6.Network → ParsingRules e
  add_net r (ParsedNet.v4 v4) = add_ipv4_rule r v4
  add_net r (ParsedNet.v6 v6) = add_ipv6_rule r v6

  -- A line that is no section and no marked rule.
  unfoldable pub add_line : ParsingRules e → List ℕ → ParsingRules e
  add_line r line = elim (e.parse_ip_net line) [
    | some net ↦ add_net r net
    | none ↦ elim (e.parse_ip_addr line) [
      | some addr ↦ add_net r addr
      | none ↦ add_regex_rule r line
    ]
  ]

  -- The `match line` of the loop.
  unfoldable pub load_directive : Loading e → List ℕ → Loading e
  load_directive l line =
      if str_eq line (bytes "[reject_all]") || str_eq line (bytes "[bypass_all]")
      then record l { mode = Mode.white_list }
      else if str_eq line (bytes "[accept_all]") || str_eq line (bytes "[proxy_all]")
      then record l { mode = Mode.black_list }
      else if str_eq line (bytes "[outbound_block_list]")
      then record l { curr = Section.outbound_block }
      else if str_eq line (bytes "[black_list]") || str_eq line (bytes "[bypass_list]")
      then record l { curr = Section.bypass }
      else if str_eq line (bytes "[white_list]") || str_eq line (bytes "[proxy_list]")
      then record l { curr = Section.proxy }
      else put_current l (add_line (current l) line)

  unfoldable pub load_trimmed : Loading e → List ℕ → IoResult (Loading e)
  load_trimmed l line =
      if is_ascii line
      then elim (strip_prefix (bytes "||") line) [
        | some rule ↦ do r ← add_tree_rule (current l) rule; ok (put_current l r)
        | none ↦ elim (strip_prefix (bytes "|") line) [
          | some rule ↦ do r ← add_set_rule (current l) rule; ok (put_current l r)
          | none ↦ ok (load_directive l line)
        ]
      ]
      else ok l

  -- A line behind `line?`. Empty lines and comments are told before the line is trimmed.
  unfoldable pub load_text : Loading e → List ℕ → IoResult (Loading e)
  load_text l [] = ok l
  load_text l (b ∷ line) = if b == b'#' then ok l else load_trimmed l (trim (b ∷ line))

  -- One turn of the loop.
  unfoldable pub load_line : Loading e → List ℕ → IoResult (Loading e)
  load_line l line = do text ← read_line line; load_text l text

  unfoldable pub load_lines : Loading e → List (List ℕ) → IoResult (Loading e)
  load_lines l [] = ok l
  load_lines l (line ∷ lines) = load_line l line >>= λ l'. load_lines l' lines

  abbrev pub start : Loading e
  start = record {
    mode = Mode.black_list;
    curr = Section.bypass;
    outbound_block = new_parsing_rules;
    bypass = new_parsing_rules;
    proxy = new_parsing_rules;
  }

  unfoldable pub load_from_file : List (List ℕ) → IoResult (AccessControl e)
  load_from_file lines = do
    l ← load_lines start lines
    outbound_rules ← into_rules l.outbound_block
    black_rules ← into_rules l.bypass
    white_rules ← into_rules l.proxy
    ok (record {
      outbound_block = outbound_rules;
      black_list = black_rules;
      white_list = white_rules;
      mode = l.mode;
    })
