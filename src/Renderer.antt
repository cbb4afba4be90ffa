-- ===== src/Renderer.antt =====
-- `MockForm`, `MockPage` and what is extracted from a page (kernel/renderer/mock.py). Load times are
-- in whole milliseconds.
pub mod Screen
pub mod Sites
pub mod Calls
pub mod Rollback
pub mod Pages
pub mod Shown
pub mod InStep
pub mod Submission
pub mod Opening
pub mod Runs
use terminal_agent.Base.{
  is_space, ℕ, zero, suc, ◌+◌, ◌&&◌, ◌||◌, String, Bool, true, false, not, List, [], ◌∷◌, nat_eq,
  leb, any, codes, if◌then◌else◌,
}
use terminal_agent.Value.{
  Value, Fields, Items, end, field, nil, cons, str, num, bool, obj, arr, keys, texts,
}

pub data LoadState : Type 0 where
  idle loading interactive complete : LoadState

-- the values of the enumeration
unfoldable pub load_state_value : LoadState → String
load_state_value idle = "idle"
load_state_value loading = "loading"
load_state_value interactive = "interactive"
load_state_value complete = "complete"

pub record MockForm : Type 0 where
  pub id : String
  pub form_type : String
  pub action : String
  pub method : String
  pub fields : Fields

-- the description of a required field
unfoldable pub required_field : String → String → Value
required_field type label =
    obj (field "type" (str type) (field "required" (bool true) (field "label" (str label) end)))

unfoldable pub login_form : String → MockForm
unfolding required_field
login_form form_id = record {
  id = form_id;
  form_type = "login";
  action = "/login";
  method = "POST";
  fields =
      field "email" (required_field "email" "Email")
        (field "password" (required_field "password" "Password") end);
}

unfoldable pub search_form : String → MockForm
unfolding required_field
search_form form_id = record {
  id = form_id;
  form_type = "search";
  action = "/search";
  method = "GET";
  fields = field "q" (required_field "text" "Search") end;
}

unfoldable pub contact_form : String → MockForm
unfolding required_field
contact_form form_id = record {
  id = form_id;
  form_type = "contact";
  action = "/contact";
  method = "POST";
  fields = field "name" (required_field "text" "Name") (
      field "email" (required_field "email" "Email")
        (field "message" (required_field "textarea" "Message") end));
}

pub record MockPage : Type 0 where
  pub url : String
  pub title : String
  pub content : String
  pub forms : List MockForm
  pub links : Items
  pub tables : Items
  pub load_time_ms : ℕ

-- how many words begin in the text, which a word goes into or not
unfoldable pub words_from : Bool → List ℕ → ℕ
unfolding is_space
words_from inside [] = 0
words_from inside (c ∷ s) =
    let after_space = words_from false s in
    let in_word = words_from true s in
    if is_space c then after_space else if inside then in_word else in_word + 1

-- `len(content.split())`
unfoldable pub word_count : String → ℕ
unfolding words_from
word_count content = words_from false (codes content)

unfoldable pub extract_readable : MockPage → Fields
unfolding word_count
extract_readable page = field "type" (str "readable") (
    field "url" (str page.url) (
      field "title" (str page.title) (
        field "content" (str page.content)
          (field "word_count" (num (word_count page.content)) end))))

unfoldable pub form_entry : MockForm → Value
form_entry f = obj (
    field "id" (str f.id) (
      field "type" (str f.form_type) (
        field "action" (str f.action)
          (field "method" (str f.method) (field "fields" (arr (texts (keys f.fields))) end)))))

unfoldable pub form_entries : List MockForm → Items
unfolding form_entry
form_entries [] = nil
form_entries (f ∷ fs) = cons (form_entry f) (form_entries fs)

unfoldable pub extract_forms : MockPage → Items
unfolding form_entries
extract_forms page = form_entries page.forms

unfoldable pub extract_links : MockPage → Items
extract_links page = page.links

unfoldable pub extract_tables : MockPage → Items
extract_tables page = page.tables
