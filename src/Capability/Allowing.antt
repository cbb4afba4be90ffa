-- ===== src/Capability/Allowing.antt =====
-- What the loop of a check finds on a list of capabilities (kernel/capabilities.py).
use terminal_agent.Base.{
  ℕ, ◌≡◌, ◌↔◌, String, refl, true, false, List, [], ◌∷◌, arith, In, here, there, Bool-cases, inl,
  inr,
}
use terminal_agent.Capability.{Capability, any_allows, is_expired, matches}
use terminal_agent.Capability.Matching.{Covers, matches_iff}

-- what a check looks for on a principal's list
pub record Allows (now : ℕ) (operation resource : String) (cs : List Capability) : Type 0 where
  pub cap : Capability
  pub on_list : In cap cs
  pub live : is_expired now cap ≡ false
  pub covers_operation : Covers b'.' cap.operation operation
  pub covers_resource : Covers b':' cap.resource resource

module _ (now : ℕ) (operation resource : String) where
  pub any_allows_sound :
      (cs : List Capability)
      → any_allows now operation resource cs ≡ true
      → Allows now operation resource cs
  unfolding any_allows
  any_allows_sound [] h = cc
  any_allows_sound (c ∷ cs) h = elim (Bool-cases (is_expired now c)) [
    | inl e ↦ later (any_allows_sound cs (rw e at h))
    | inr e ↦ elim (Bool-cases (matches c operation resource)) [
      | inl m ↦
          let (o, r) = (matches_iff c operation resource).0 m in
          record {
            cap = c;
            on_list = here refl;
            live = e;
            covers_operation = o;
            covers_resource = r;
          }
      | inr m ↦ later (any_allows_sound cs (rw (e, m) at h))
    ]
  ]
    where
      later : Allows now operation resource cs → Allows now operation resource (c ∷ cs)
      later a = record {
        cap = a.cap;
        on_list = there a.on_list;
        live = a.live;
        covers_operation = a.covers_operation;
        covers_resource = a.covers_resource;
      }

  pub any_allows_complete :
      (cs : List Capability) (c : Capability)
      → In c cs
      → is_expired now c ≡ false
      → matches c operation resource ≡ true
      → any_allows now operation resource cs ≡ true
  unfolding any_allows
  any_allows_complete [] c h l m = elim h [ ]
  any_allows_complete (x ∷ cs) c (here e) l m = rw (← e, l, m)
  any_allows_complete (x ∷ cs) c (there h) l m = ground (arith, any_allows_complete cs c h l m)

  pub any_allows_iff :
      (cs : List Capability)
      → (any_allows now operation resource cs ≡ true) ↔ Allows now operation resource cs
  any_allows_iff cs = (
    any_allows_sound cs,
    λ a.
        any_allows_complete cs a.cap a.on_list a.live
          ((matches_iff a.cap operation resource).1 (a.covers_operation, a.covers_resource)),
  )
