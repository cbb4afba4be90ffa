-- ===== src/Version/Changes.antt =====
-- What `get_changelog` returns (kernel/version.py).
use terminal_agent.Base.{
  ℕ, ◌≡◌, ◌↔◌, ◌⊎◌, refl, sym, ◌∙◌, ap, arith, subst, true, Option, none, some, List, [], ◌∷◌, map,
  All, In, here, there, Bool-cases, Option-cases, inl, inr, IsAscending, In-ascending, ascending,
  ascending-IsAscending,
}
use terminal_agent.Version.{SemanticVersion, lt, parse, then_parse}
use terminal_agent.Version.Workflow.{le}
use terminal_agent.Version.Order.{lt_asym, ge_trans}
use terminal_agent.Version.Changelog.{
  ChangelogEntry, Dated, is_between, between, is_before, get_changelog,
}

-- an entry under a text that is a version
abbrev pub IsVersioned : ChangelogEntry → Type 0
IsVersioned e = (ver : SemanticVersion) × (parse e.version ≡ some ver)

-- an entry of the table whose version lies between two versions
pub record IsChange (from_ver to_ver : SemanticVersion) (table : List ChangelogEntry) (d : Dated)
    : Type 0 where
  pub on_table : In d.entry table
  pub parsed : parse d.entry.version ≡ some d.at
  pub above : lt from_ver d.at ≡ true
  pub not_above : le d.at to_ver ≡ true

some_inj : (u v : SemanticVersion) → some u ≡ some v → u ≡ v
some_inj u v h = cc

module _ (from_ver to_ver : SemanticVersion) where
  -- the changes of a table with one more entry
  IsChange-cons :
      (e : ChangelogEntry) (table : List ChangelogEntry) (d : Dated)
      → IsChange from_ver to_ver table d
      → IsChange from_ver to_ver (e ∷ table) d
  IsChange-cons e table d c = record {
    on_table = there c.on_table;
    parsed = c.parsed;
    above = c.above;
    not_above = c.not_above;
  }

  IsChange-tail :
      (e : ChangelogEntry) (table : List ChangelogEntry) (d : Dated)
      → In d.entry table
      → IsChange from_ver to_ver (e ∷ table) d
      → IsChange from_ver to_ver table d
  IsChange-tail e table d m c = record {
    on_table = m;
    parsed = c.parsed;
    above = c.above;
    not_above = c.not_above;
  }

  -- the date of the first entry
  date_of_first :
      (e : ChangelogEntry) (ver : SemanticVersion) (d : Dated)
      → parse e.version ≡ some ver
      → d.entry ≡ e
      → parse d.entry.version ≡ some d.at
      → ver ≡ d.at
  date_of_first e ver d p q r =
      some_inj ver d.at (sym p ∙ ap (λ (x : ChangelogEntry). parse x.version) (sym q) ∙ r)

  between_tests :
      (v : SemanticVersion)
      → is_between from_ver to_ver v ≡ true
      → (lt from_ver v ≡ true) × (le v to_ver ≡ true)
  unfolding is_between
  between_tests v h = ground arith

  is_between_of :
      (v : SemanticVersion)
      → lt from_ver v ≡ true
      → le v to_ver ≡ true
      → is_between from_ver to_ver v ≡ true
  unfolding is_between
  is_between_of v h k = ground arith

  between_lem :
      (table : List ChangelogEntry)
      → All IsVersioned table
      → (found : List Dated) × (between from_ver to_ver table ≡ some found)
        × ((d : Dated) → In d found ↔ IsChange from_ver to_ver table d)
  unfolding between then_parse
  between_lem [] h = ([], refl, λ d. ((λ m. elim m [ ]), (λ c. elim c.on_table [ ])))
  between_lem (e ∷ table) ((ver, p), h) =
      let (found, q, same) = between_lem table h in
      let first : Dated = record { at = ver; entry = e } in
      elim (Bool-cases (is_between from_ver to_ver ver)) [
        | inl t ↦ (
          first ∷ found,
          rw (p, q, t) refl,
          λ d. (
            (λ m. elim m [
              | here i ↦
                  subst (λ (x : Dated). IsChange from_ver to_ver (e ∷ table) x) (sym i)
                    (record {
                      on_table = here refl;
                      parsed = p;
                      above = (between_tests ver t).0;
                      not_above = (between_tests ver t).1;
                    })
              | there k ↦ IsChange-cons e table d ((same d).0 k)
            ]),
            (λ c. elim c.on_table [
              | here i ↦
                  let at : d.at ≡ ver = sym (date_of_first e ver d p i c.parsed) in
                  here (λ j. record { at = at j; entry = i j })
              | there k ↦ there ((same d).1 (IsChange-tail e table d k c))
            ]),
          ),
        )
        | inr t ↦ (
          found,
          rw (p, q, t) refl,
          λ d. (
            (λ m. IsChange-cons e table d ((same d).0 m)),
            (λ c. elim c.on_table [
              | here i ↦
                  let at : ver ≡ d.at = date_of_first e ver d p i c.parsed in
                  absurd (
                    cc (
                      sym t
                      ∙ ap (is_between from_ver to_ver) at
                      ∙ is_between_of d.at c.above c.not_above))
              | there k ↦ (same d).1 (IsChange-tail e table d k c)
            ]),
          ),
        )
      ]

-- the entries between two versions, in order
pub record IsChangelog (table : List ChangelogEntry) (from_ver to_ver : SemanticVersion)
    (out : Option (List ChangelogEntry)) : Type 0 where
  pub found : List Dated
  pub result : out ≡ some (map (λ d. d.entry) found)
  pub exact : (d : Dated) → In d found ↔ IsChange from_ver to_ver table d
  pub ordered : IsAscending is_before found

-- For a table whose texts are versions: if one of the two given texts is no version, get_changelog
-- raises; otherwise it returns exactly the entries whose version lies above the first and not
-- above the second, and no entry has a version below that of an earlier one.
pub get_changelog_lem :
    (table : List ChangelogEntry) (from_version to_version : List ℕ)
    → All IsVersioned table
    → (((parse from_version ≡ none) ⊎ (parse to_version ≡ none))
        × (get_changelog table from_version to_version ≡ none))
      ⊎ ((from_ver : SemanticVersion) × (to_ver : SemanticVersion) × (parse from_version
            ≡ some from_ver)
          × (parse to_version ≡ some to_ver)
          × IsChangelog table from_ver to_ver (get_changelog table from_version to_version))
unfolding get_changelog then_parse
get_changelog_lem table from_version to_version h = elim (Option-cases (parse from_version)) [
  | inl p ↦ inl (inl p, rw p refl)
  | inr (from_ver, p) ↦ elim (Option-cases (parse to_version)) [
    | inl q ↦ inl (inr q, rw (p, q) refl)
    | inr (to_ver, q) ↦
        let (found, r, same) = between_lem from_ver to_ver table h in
        inr (
          from_ver,
          to_ver,
          p,
          q,
          record {
            found = ascending is_before found;
            result = rw (p, q, r) refl;
            exact = λ d.
                let (to, from) = In-ascending is_before {a = d} found in
                ((λ m. (same d).0 (to m)), (λ c. from ((same d).1 c)));
            ordered =
                ascending-IsAscending is_before (λ x y. lt_asym x.at y.at)
                  (λ x y z. ge_trans x.at y.at z.at) found;
          },
        )
  ]
]
