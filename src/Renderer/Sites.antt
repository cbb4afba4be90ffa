-- ===== src/Renderer/Sites.antt =====
-- `MockSiteRegistry` (kernel/renderer/mock.py). The parameter `urlparse` gives the host and the path
-- of an address, `netloc` and `path` of `urllib.parse.urlparse`.
use Prim.Native.String as S
use terminal_agent.Base.{
  String, ◌≡◌, ◌∙◌, refl, ap, Bool, Option, some, List, [], ◌∷◌, ◌==◌, ◌&&◌, if◌then◌else◌,
  Bool-cases, inl, inr, eq_iff,
}
use terminal_agent.Dict
use terminal_agent.Dict.{Dict}
use terminal_agent.Value.{Value, Items, end, field, nil, cons, str, obj, arr, texts}
use terminal_agent.Renderer.{MockForm, MockPage, login_form, search_form, contact_form}

-- host, path, page
abbrev pub Sites : Type 0
Sites = Dict (Dict MockPage)

abbrev link : String → String → Value
link text href = obj (field "text" (str text) (field "href" (str href) end))

-- a page that loads in the usual time
abbrev page_of : String → String → String → List MockForm → Items → Items → MockPage
page_of url title content forms links tables = record {
  url = url;
  title = title;
  content = content;
  forms = forms;
  links = links;
  tables = tables;
  load_time_ms = 100;
}

-- the pages that `_register_default_sites` registers, in that order
abbrev pub default_pages : List MockPage
default_pages =
    page_of "https://example.com/" "Example Domain"
      "This domain is for use in illustrative examples in documents." []
      (cons (link "More information..." "https://www.iana.org/domains/example") nil) nil
    ∷ page_of "https://example.com/login" "Login - Example" "Please log in to continue."
        (login_form "form:login" ∷ []) nil nil
    ∷ page_of "https://example.com/dashboard" "Dashboard - Example"
        "Welcome back! Here's your dashboard." []
        (cons (link "Settings" "/settings")
          (cons (link "Profile" "/profile") (cons (link "Logout" "/logout") nil)))
        nil
    ∷ page_of "https://search.example.com/" "Example Search" "Search the web."
        (search_form "form:search" ∷ []) nil nil
    ∷ page_of "https://search.example.com/results" "Search Results - Example Search"
        "Results for your query." []
        (cons (link "Result 1" "https://result1.example.com") (
          cons (link "Result 2" "https://result2.example.com")
            (cons (link "Result 3" "https://result3.example.com") nil)))
        nil
    ∷ page_of "https://docs.example.com/" "Documentation"
        "# Getting Started\n\nWelcome to the documentation.\n\n## Installation\n\nRun `pip install example` to get started.\n\n## Usage\n\n```python\nimport example\nexample.do_thing()\n```\n\n## API Reference\n\nSee the API docs for more details."
        []
        (cons (link "Installation" "/installation")
          (cons (link "API Reference" "/api") (cons (link "Examples" "/examples") nil)))
        nil
    ∷ page_of "https://example.com/contact" "Contact Us - Example" "Get in touch with our team."
        (contact_form "form:contact" ∷ []) nil nil
    ∷ page_of "https://data.example.com/" "Data Table" "Sample data table." [] nil (
        cons
          (obj (
            field "headers" (arr (texts ("Name" ∷ "Email" ∷ "Status" ∷ []))) (
              field "rows"
                (arr (
                  cons (arr (texts ("Alice" ∷ "alice@example.com" ∷ "Active" ∷ []))) (
                    cons (arr (texts ("Bob" ∷ "bob@example.com" ∷ "Pending" ∷ []))) (
                      cons (arr (texts ("Charlie" ∷ "charlie@example.com" ∷ "Active" ∷ []))) nil))))
                end)))
          nil)
    ∷ []

unfoldable pub generate_404 : String → MockPage
generate_404 url = record {
  url = url;
  title = "404 Not Found";
  content = S.◌++◌ "The page at " (S.◌++◌ url " was not found.");
  forms = [];
  links = nil;
  tables = nil;
  load_time_ms = 50;
}

module _ {V : Type 0} where
  get_or-put :
      (d : Dict (Dict V)) (k j : String) (v : Dict V)
      → Dict.get_or (Dict.put d k v) j [] ≡ (if k == j then v else Dict.get_or d j [])
  get_or-put d k j v = elim (Bool-cases (k == j)) [
    | inl e ↦ rw (Dict.get_or, Dict.get-put d k j v, e) refl
    | inr e ↦ rw (Dict.get_or, Dict.get-put d k j v, e) refl
  ]

  -- a write to a dict in a dict
  get-put_nested :
      (d : Dict (Dict V)) (h j p q : String) (v : V)
      → Dict.get (Dict.get_or (Dict.put d h (Dict.put (Dict.get_or d h []) p v)) j []) q
        ≡ (if h == j && p == q then some v else Dict.get (Dict.get_or d j []) q)
  get-put_nested d h j p q v =
      let inner = Dict.put (Dict.get_or d h []) p v in
      ap (λ (x : Dict V). Dict.get x q) (get_or-put d h j inner) ∙ elim (Bool-cases (h == j)) [
        | inl e ↦ rw (e, ← (eq_iff h j).0 e) (Dict.get-put (Dict.get_or d h []) p q v)
        | inr e ↦ rw e refl
      ]

module _ (urlparse : String → String × String) where
  abbrev host_of : String → String
  host_of url = (urlparse url).0

  -- `parsed.path or "/"`
  unfoldable pub path_of : String → String
  path_of url = if (urlparse url).1 == "" then "/" else (urlparse url).1

  unfoldable pub register_page : MockPage → Sites → Sites
  unfolding path_of
  register_page page sites =
      Dict.put sites (host_of page.url)
        (Dict.put (Dict.get_or sites (host_of page.url) []) (path_of page.url) page)

  unfoldable pub register_all : List MockPage → Sites → Sites
  unfolding register_page
  register_all [] sites = sites
  register_all (page ∷ pages) sites = register_all pages (register_page page sites)

  -- `__init__` with `_register_default_sites`
  unfoldable pub init : Sites
  unfolding register_all
  init = register_all default_pages []

  unfoldable pub get_page : String → Sites → Option MockPage
  unfolding path_of
  get_page url sites = Dict.get (Dict.get_or sites (host_of url) []) (path_of url)

  -- whether two addresses have one host and one path
  abbrev pub same_place : String → String → Bool
  same_place a b = host_of a == host_of b && path_of a == path_of b

  -- After a page is registered, the addresses with its host and path get it, and all other
  -- addresses get what they got before, however addresses are parsed.
  pub get_page-register_page :
      (page : MockPage) (url : String) (sites : Sites)
      → get_page url (register_page page sites)
        ≡ (if same_place page.url url then some page else get_page url sites)
  unfolding get_page register_page
  get_page-register_page page url sites =
      get-put_nested sites (host_of page.url) (host_of url) (path_of page.url) (path_of url) page
