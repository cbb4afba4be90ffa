-- ===== src/Renderer/Pages.antt =====
-- What `navigate` leaves, on a tab and on anything else (kernel/renderer/mock.py).
use terminal_agent.Base.{
  ℕ, ◌≡◌, ◌≢◌, ◌∙◌, refl, sym, ap, subst, String, false, none, some, ◌⊎◌, [], ◌∷◌, ◌==◌, eq_iff,
  Bool-cases, inl, inr,
}
use text.Mathlib.TextPositions.{eq_refl}
use terminal_agent.Dict
use terminal_agent.Dict.{Dict}
use terminal_agent.Value.{Value, str, null}
use terminal_agent.Platform.{Platform}
use terminal_agent.Objects.Heap.{Heap, Slot, atom, deref, box}
use terminal_agent.Objects.Object.{ObjectType, ManagedObject}
use terminal_agent.Objects.Object
use terminal_agent.Objects.Manager as M
use terminal_agent.Objects.Manager.{
  Manager, Creation, Method, call, call_on, create, snapshot_all, restore_snapshot,
}
use terminal_agent.Objects.Registry.{call_on_found}
use terminal_agent.Renderer.{MockPage}
use terminal_agent.Renderer.Sites.{get_page, generate_404}
use terminal_agent.Renderer.Calls.{navigate}
use terminal_agent.Renderer.Screen.{
  Screen, act, has_type, page_or_404, data_or, extract, extract_page, navigated, failed,
}
use terminal_agent.Renderer.{load_state_value}
use terminal_agent.Renderer.Rollback.{has_type_found}
use Prim.Native.String as S

-- the tab shows the page
pub record IsShown (tab_id url : String) (page : MockPage) (before after : Screen) : Type 0 where
  pub tab : ManagedObject
  pub there : Dict.get after.manager.objects tab_id ≡ some tab
  pub at_url : data_or after.manager.heap tab "url" null ≡ str url
  pub titled : data_or after.manager.heap tab "title" null ≡ str page.title
  pub complete : data_or after.manager.heap tab "load_state" null ≡ str "complete"
  pub others :
      (id : String)
      → id ≢ tab_id
      → Dict.get after.manager.objects id ≡ Dict.get before.manager.objects id
  -- the dicts and lists that objects refer to
  pub cells : after.manager.heap ≡ before.manager.heap
  pub extracts :
      (extract_type : String) → extract tab_id extract_type after ≡ extract_page extract_type page
  pub forms : after.renderer.form_data ≡ before.renderer.form_data

pub data_or_found :
    (h : Heap) (o : ManagedObject) (k : String) (default : Value) (s : Slot)
    → Dict.get o.slots k ≡ some s
    → data_or h o k default ≡ deref h s
unfolding data_or
data_or_found h o k default s e = rw (data_or, e) refl

module _ (os : Platform) (now : ℕ) (urlparse : String → String × String) (tab_id url : String)
    (w : Screen) where
  abbrev pub target : MockPage
  target = page_or_404 url (get_page urlparse url w.renderer.registry)

  -- the tab's object after the two writes
  abbrev shown : ManagedObject → ManagedObject
  shown o = record o {
    slots =
        Dict.put
          (Dict.put
            (Dict.put (Dict.put o.slots "url" (atom (str url))) "load_state" (atom (str "loading")))
            "title" (atom (str target.title)))
          "load_state" (atom (str "complete"));
    updated_at = now;
  }

  -- the tab's object after the first of them
  abbrev begun : ManagedObject → ManagedObject
  begun o = record o {
    slots = Dict.put (Dict.put o.slots "url" (atom (str url))) "load_state" (atom (str "loading"));
    updated_at = now;
  }

  twice :
      (o : ManagedObject)
      → Dict.get w.manager.objects tab_id ≡ some o
      → (call_on now tab_id
          (Method.update (("title", str target.title) ∷ ("load_state", str "complete") ∷ []))
          (call_on now tab_id
            (Method.update (("url", str url) ∷ ("load_state", str "loading") ∷ []))
            w.manager).1).1
        ≡ record w.manager {
          objects = Dict.put (Dict.put w.manager.objects tab_id (begun o)) tab_id (shown o);
        }
  unfolding call Object.update Object.put_all box
  twice o got =
      let first = Method.update (("url", str url) ∷ ("load_state", str "loading") ∷ []) in
      let second =
        Method.update (("title", str target.title) ∷ ("load_state", str "complete") ∷ []) in
      let middle : Manager = record w.manager {
        objects = Dict.put w.manager.objects tab_id (begun o);
      } in
      ap (λ (m : Manager). (call_on now tab_id second m).1)
        (call_on_found now tab_id first w.manager o got)
      ∙ call_on_found now tab_id second middle (begun o)
          (Dict.get-put w.manager.objects tab_id tab_id (begun o) ∙ rw (eq_refl tab_id) refl)

  -- the state after a navigation of a tab, but for the log
  abbrev moved : ManagedObject → Screen
  moved o = record w {
    manager = record w.manager {
      objects = Dict.put (Dict.put w.manager.objects tab_id (begun o)) tab_id (shown o);
    };
    renderer = record w.renderer { tab_pages = Dict.put w.renderer.tab_pages tab_id target };
  }

  navigate_found :
      (o : ManagedObject)
      → Dict.get w.manager.objects tab_id ≡ some o
      → o.type ≡ ObjectType.tab
      → ((navigate os now urlparse tab_id url w).0 ≡ navigated url target)
        × ((navigate os now urlparse tab_id url w).1.renderer ≡ (moved o).renderer)
        × ((navigate os now urlparse tab_id url w).1.manager ≡ (moved o).manager)
  unfolding navigate act M.get load_state_value
  navigate_found o got is_tab =
      rw (navigate, got, has_type_found ObjectType.tab o is_tab) (refl, refl, twice o got)

  distinct_keys : (id : String) → id ≢ tab_id → tab_id == id ≡ false
  distinct_keys id other = elim (Bool-cases (tab_id == id)) [
    | inl e ↦ absurd (other (sym ((eq_iff tab_id id).0 e)))
    | inr e ↦ e
  ]

  url_slot : (o : ManagedObject) → Dict.get (shown o).slots "url" ≡ some (atom (str url))
  url_slot o =
      Dict.get-put _ "load_state" "url" _
      ∙ Dict.get-put _ "title" "url" _
      ∙ Dict.get-put _ "load_state" "url" _
      ∙ Dict.get-put _ "url" "url" _

  title_slot :
      (o : ManagedObject) → Dict.get (shown o).slots "title" ≡ some (atom (str target.title))
  title_slot o = Dict.get-put _ "load_state" "title" _ ∙ Dict.get-put _ "title" "title" _

  state_slot :
      (o : ManagedObject) → Dict.get (shown o).slots "load_state" ≡ some (atom (str "complete"))
  state_slot o = Dict.get-put _ "load_state" "load_state" _

  moved-IsShown :
      (o : ManagedObject) (after : Screen)
      → after.renderer ≡ (moved o).renderer
      → after.manager ≡ (moved o).manager
      → IsShown tab_id url target w after
  unfolding data_or extract
  moved-IsShown o after renderer manager =
      rw (renderer, manager)
        (record {
          tab = shown o;
          there = Dict.get-put _ tab_id tab_id (shown o) ∙ rw (eq_refl tab_id) refl;
          at_url = data_or_found w.manager.heap (shown o) "url" null (atom (str url)) (url_slot o);
          titled =
              data_or_found w.manager.heap (shown o) "title" null (atom (str target.title))
                (title_slot o);
          complete =
              data_or_found w.manager.heap (shown o) "load_state" null (atom (str "complete"))
                (state_slot o);
          others = λ id other.
              Dict.get-put _ tab_id id (shown o)
              ∙ rw (distinct_keys id other) (
                  Dict.get-put w.manager.objects tab_id id (begun o)
                  ∙ rw (distinct_keys id other) refl);
          cells = refl;
          extracts = λ t.
              rw (extract, Dict.get-put w.renderer.tab_pages tab_id tab_id target, eq_refl tab_id)
                refl;
          forms = refl;
        })

  target_found :
      (page : MockPage)
      → (get_page urlparse url w.renderer.registry ≡ some page)
        ⊎ ((get_page urlparse url w.renderer.registry ≡ none) × (page ≡ generate_404 url))
      → target ≡ page
  unfolding page_or_404
  target_found page (inl found) = ap (page_or_404 url) found
  target_found page (inr (missing, is_404)) = ap (page_or_404 url) missing ∙ sym is_404

  -- Let page be the one that get_page finds for the address, or the page of generate_404 when it
  -- finds none. A navigation of a tab answers success with the address and the title of the page;
  -- the tab has the address and the title and is complete, extractions from the tab are those of
  -- the page, every other object and all dicts and lists that objects refer to are as they were,
  -- and so is what the renderer keeps of forms.
  pub navigate-IsShown :
      (page : MockPage) (o : ManagedObject)
      → (get_page urlparse url w.renderer.registry ≡ some page)
        ⊎ ((get_page urlparse url w.renderer.registry ≡ none) × (page ≡ generate_404 url))
      → Dict.get w.manager.objects tab_id ≡ some o
      → o.type ≡ ObjectType.tab
      → ((navigate os now urlparse tab_id url w).0 ≡ navigated url page)
        × IsShown tab_id url page w (navigate os now urlparse tab_id url w).1
  navigate-IsShown page o chosen got is_tab =
      let (answer, renderer, manager) = navigate_found o got is_tab in
      let after = (navigate os now urlparse tab_id url w).1 in
      subst
        (λ (p : MockPage).
          ((navigate os now urlparse tab_id url w).0 ≡ navigated url p)
          × IsShown tab_id url p w after)
        (target_found page chosen) (answer, moved-IsShown o after renderer manager)

  -- Anything but a tab is left alone, and the answer is an error.
  pub navigate_missing :
      has_type ObjectType.tab (Dict.get w.manager.objects tab_id) ≡ false
      → navigate os now urlparse tab_id url w ≡ (failed (S.◌++◌ "Tab not found: " tab_id), w)
  unfolding navigate M.get
  navigate_missing other = rw (navigate, other) refl
