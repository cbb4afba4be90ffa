-- ===== src/Tests/Renderer.antt =====
-- The theorems on the renderer at a registry with one tab and one form (kernel/renderer/mock.py).
use terminal_agent.Base.{show, inl, inr, ◌≡◌, ◌≢◌, refl, String, none, some, List, [], ◌∷◌, arith}
use terminal_agent.Dict
use terminal_agent.Dict.{Dict}
use terminal_agent.Value
use terminal_agent.Value.{Value, Fields, end, field, str, num, bool, obj, arr, null}
use terminal_agent.Objects.Heap.{reads}
use terminal_agent.Objects.Object.{ObjectType, ManagedObject}
use terminal_agent.Objects.Object
use terminal_agent.Objects.Manager.{Manager, Creation, create, next_id, snapshot_all}
use terminal_agent.Objects.Registry.{Apart, get-put_cases, create-IsNamed, create-Apart}
use terminal_agent.Objects.Rollback.{IsClosed, AllSmall}
use terminal_agent.Renderer.{MockPage, login_form}
use terminal_agent.Renderer.Sites.{Sites, get_page, generate_404}
use terminal_agent.Renderer.Calls.{navigate, fill_form, submit_form}
use terminal_agent.Renderer.Screen.{Screen, filled_data, navigated}
use terminal_agent.Value.{nil, get}
use terminal_agent.Objects.Manager.{init}
use terminal_agent.Objects.Registry.{init-IsNamed}
use terminal_agent.Objects.Heap.{empty}
use terminal_agent.Objects.Snapshot.{is_large}
use terminal_agent.Renderer.Sites as Sites
use terminal_agent.Renderer.Sites.{register_page, get_page-register_page, same_place}
use terminal_agent.Renderer.Rollback.{captured, restored, submit_form-restored}
use terminal_agent.Renderer.Pages.{IsShown, navigate-IsShown}
use terminal_agent.Renderer.InStep.{InStep}
use terminal_agent.Renderer.Submission.{SubmitsShown}
use terminal_agent.Renderer.Runs as R
use terminal_agent.Renderer.Runs.{
  Call, navigating, waiting, finding, filling, clearing, submitting, run-InStep,
}
use terminal_agent.Tests.Data.{counting}

-- every address is its own host
abbrev whole : String → String × String
whole url = (url, "")

abbrev plain : String → MockPage
plain url = record {
  url = url;
  title = "Plain";
  content = "Plain text.";
  forms = [];
  links = nil;
  tables = nil;
  load_time_ms = 1;
}

-- registries with one tab, and with one form
abbrev one_tab : Manager
one_tab = (create counting 1 (Creation.tab none none) init none).1

abbrev login : Creation
login = Creation.form "tab:1" (some "login")

abbrev one_form : Manager
one_form = (create counting 2 login init none).1

abbrev screen_of : Manager → Screen
screen_of m = record {
  renderer = record { registry = Sites.init whole; tab_pages = []; form_data = [] };
  manager = m;
  audit = none;
}

abbrev the_tab : ManagedObject
the_tab = (create counting 1 (Creation.tab none none) init none).0

abbrev the_form : ManagedObject
the_form = (create counting 2 login init none).0

tab_there : Dict.get one_tab.objects "tab:1" ≡ some the_tab
unfolding create Dict.get Dict.put Object.type_value show
tab_there = refl

form_there : Dict.get one_form.objects "form:1" ≡ some the_form
unfolding create Dict.get Dict.put Object.type_value show
form_there = refl

abbrev login_page : MockPage
login_page = record {
  url = "https://example.com/login";
  title = "Login - Example";
  content = "Please log in to continue.";
  forms = login_form "form:login" ∷ [];
  links = nil;
  tables = nil;
  load_time_ms = 100;
}

login_page_found :
    get_page whole "https://example.com/login" (screen_of one_tab).renderer.registry
    ≡ some login_page
unfolding get_page Sites.init Sites.register_all Sites.register_page Sites.path_of Dict.get Dict.put
login_page_found = refl

navigate-IsShown_example :
    ((navigate counting 5 whole "tab:1" "https://example.com/login" (screen_of one_tab)).0
      ≡ navigated "https://example.com/login" login_page)
    × IsShown "tab:1" "https://example.com/login" login_page
        (screen_of one_tab)
        (navigate counting 5 whole "tab:1" "https://example.com/login" (screen_of one_tab)).1
unfolding create
navigate-IsShown_example =
    navigate-IsShown counting 5 whole "tab:1" "https://example.com/login" (screen_of one_tab)
      login_page the_tab (inl login_page_found) tab_there refl

init-Apart : Apart 0 0 empty init
unfolding Dict.get
init-Apart = record {
  room = omega arith;
  held = λ a w. absurd (omega (arith, w.1));
  away = λ id o e. absurd (cc e);
}

-- the one object is no form
only_tab :
    (id : String) (o : ManagedObject)
    → Dict.get one_tab.objects id ≡ some o
    → o.type ≢ ObjectType.form
unfolding create Dict.get Dict.put
only_tab id o got is_form =
    elim (get-put_cases [] (next_id ObjectType.tab init).0 id the_tab o got) [
      | inl (q, e) ↦ cc (e, is_form)
      | inr old ↦ cc old
    ]

screen-InStep : InStep (screen_of one_tab)
unfolding Dict.get
screen-InStep = record {
  named = create-IsNamed counting 1 none (Creation.tab none none) init init-IsNamed;
  closed = create-Apart counting 1 none 0 0 empty (Creation.tab none none) init init-Apart;
  same = λ id d e. absurd (cc e);
  blank = λ id o got is_form unkept. absurd (only_tab id o got is_form);
}

abbrev calls : List Call
calls =
    navigating 5 "tab:1" "https://example.com/login"
    ∷ finding 6 "tab:1" "login"
    ∷ filling 7 "form:1" (field "email" (str "a@example.com") end)
    ∷ submitting 8 "form:1"
    ∷ []

run-InStep_example :
    InStep (R.run counting whole none calls (screen_of one_tab))
    × SubmitsShown counting (R.run counting whole none calls (screen_of one_tab))
run-InStep_example = run-InStep counting whole none calls (screen_of one_tab) screen-InStep

closed : IsClosed one_form
unfolding create Dict.put
closed = ((omega arith, (omega arith, tt)), tt)

small : AllSmall counting one_form
unfolding create Dict.put is_large
small = ((refl, (refl, tt)), tt)

submit_form-restored_example :
    (let states = (snapshot_all counting 3 (screen_of one_form).manager).0 in
      let values = field "password" (str "secret") end in
      let filled =
        (fill_form counting 4 "form:1" values (captured counting 3 (screen_of one_form))).1 in
      let after = restored 5 states filled in
      (y : ManagedObject) × (Dict.get after.manager.objects "form:1" ≡ some y)
      × (reads after.manager.heap y.slots ≡ reads (screen_of one_form).manager.heap the_form.slots)
      × ((submit_form counting 6 (some (λ id d. d)) "form:1" after).0
          ≡ Value.update (filled_data "form:1" (screen_of one_form)) values))
unfolding create
submit_form-restored_example =
    submit_form-restored counting 3 4 5 6 (λ id d. d) "form:1" (field "password" (str "secret") end)
      (screen_of one_form) the_form (create-IsNamed counting 2 none login init init-IsNamed) closed
      small form_there refl
