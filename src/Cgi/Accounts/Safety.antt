-- ===== src/Cgi/Accounts/Safety.antt =====
-- No request changes or removes an account.
use caligo_engine.Base.{
  ℕ, ◌≡◌, ◌≢◌, sym, ap, ◌∙◌, true, ◌||◌, Option, none, some, List, length, ltb, ◌==◌, Bool-cases,
  Option-cases, inl, inr,
}
use caligo_engine.Base.Text.{codes, str_eq, c_str}
use caligo_engine.Cgi.Jansson.{Jansson, IsJansson}
use caligo_engine.Cgi.Accounts.Login.{load_users-save_users}
use caligo_engine.Cgi.Accounts.{
  Saving, written, unopened, cut_off, get_string, set_new, load_users, save_users, add_user,
  register_new, register_name, handle_register, on_action, on_request, handle_request,
}

module _ (j : Jansson) where
  -- Every account of one file is in the other as it was.
  abbrev pub Keeps : Option j.File → Option j.File → Type 0
  Keeps file file' =
      (name : List ℕ) (account : j.Value)
      → j.get (load_users j file) name ≡ some account
      → j.get (load_users j file') name ≡ some account

  -- The file is written whole or is not opened.
  abbrev pub IsSound : Saving j.File → Type 0
  IsSound written = Unit
  IsSound unopened = Unit
  IsSound (cut_off part) = ⊥

module _ (j : Jansson) (laws : IsJansson j) where
  register_new-Keeps :
      (saving : Saving j.File) (name password : List ℕ) (file : Option j.File)
      → IsSound j saving
      → j.is_object (load_users j file) ≡ true
      → j.get (load_users j file) name ≡ none
      → Keeps j file (register_new j saving name password (load_users j file) file).1
  unfolding register_new save_users add_user set_new
  register_new-Keeps unopened name password file sound o free other account e = e
  register_new-Keeps (cut_off part) name password file sound o free other account e = absurd sound
  register_new-Keeps written name password file sound o free other account e =
      let users = load_users j file in
      let apart : name ≢ other = λ same. clash (sym free ∙ (ap (j.get users) same ∙ e)) in
      let is = laws.set-is_object users user name ∙ o in
      ap (λ u. j.get u other) (load_users-save_users j laws (j.set users name user) file is)
      ∙ (laws.get-set_other users user name other apart ∙ e)
    where
      clash : {a : j.Value} → none ≢ some a
      clash e = cc

      user : j.Value
      user =
          set_new j (set_new j j.object (codes "password") (j.string password)) (codes "playlists")
            (some j.object)

  register_name-Keeps :
      (saving : Saving j.File) (numbers : List ℕ) (request_data : j.Value) (name : List ℕ)
      (file : Option j.File)
      → IsSound j saving
      → j.is_object (load_users j file) ≡ true
      → Keeps j file (register_name j saving numbers request_data name file).1
  unfolding register_name
  register_name-Keeps saving numbers request_data name file sound o =
      elim (Option-cases (j.get (load_users j file) name)) [
        | inr (user, there) ↦ rw (there, register_name) (λ other account f. f)
        | inl free ↦ rw (free, register_name) (register_new-Keeps saving name _ file sound o free)
      ]

  handle_register-Keeps :
      (saving : Saving j.File) (numbers : List ℕ) (request_data : j.Value) (file : Option j.File)
      → IsSound j saving
      → j.is_object (load_users j file) ≡ true
      → Keeps j file (handle_register j saving numbers request_data file).1
  unfolding handle_register
  handle_register-Keeps saving numbers request_data file sound o =
      elim (Option-cases (get_string j request_data (codes "name"))) [
        | inl e ↦ rw (e, handle_register) (λ other account f. f)
        | inr (name, e) ↦ elim (Bool-cases (length name == 0)) [
          | inl empty ↦ rw (e, handle_register, empty) (λ other account f. f)
          | inr named ↦
              rw (e, handle_register, named)
                (register_name-Keeps saving numbers request_data name file sound o)
        ]
      ]

  on_action-Keeps :
      (saving : Saving j.File) (numbers : List ℕ) (request_data : j.Value) (action : List ℕ)
      (file : Option j.File)
      → IsSound j saving
      → j.is_object (load_users j file) ≡ true
      → Keeps j file (on_action j saving numbers request_data action file).1
  unfolding on_action
  on_action-Keeps saving numbers request_data action file sound o =
      elim (Bool-cases (str_eq action (codes "register"))) [
        | inl e ↦ rw (e, on_action) (handle_register-Keeps saving numbers request_data file sound o)
        | inr e ↦ elim (Bool-cases (str_eq action (codes "login"))) [
          | inl e' ↦ rw (e, e', on_action) (λ other account f. f)
          | inr e' ↦ rw (e, e', on_action) (λ other account f. f)
        ]
      ]

  on_request-Keeps :
      (saving : Saving j.File) (numbers : List ℕ) (request_data : Option j.Value)
      (error_text : List ℕ) (file : Option j.File)
      → IsSound j saving
      → j.is_object (load_users j file) ≡ true
      → Keeps j file (on_request j saving numbers request_data error_text file).1
  unfolding on_request
  on_request-Keeps saving numbers none error_text file sound o = λ other account f. f
  on_request-Keeps saving numbers (some request) error_text file sound o =
      elim (Option-cases (get_string j request (codes "action"))) [
        | inl e ↦ rw (e, on_request) (λ other account f. f)
        | inr (action, e) ↦
            rw (e, on_request) (on_action-Keeps saving numbers request action file sound o)
      ]

  -- Whatever a request holds, if save_users saving the users' file whole or cannot open it, and if what
  -- load_users reads is an object: every account that load_users reads before the request is read as
  -- it was after it.
  pub handle_request-Keeps :
      (saving : Saving j.File) (numbers method : List ℕ) (content_length : ℕ)
      (body error_text : List ℕ) (file : Option j.File)
      → IsSound j saving
      → j.is_object (load_users j file) ≡ true
      → Keeps j file (handle_request j saving numbers method content_length body error_text file).1
  unfolding handle_request
  handle_request-Keeps saving numbers method content_length body error_text file sound o =
      elim (Bool-cases (str_eq method (codes "POST"))) [
        | inr e ↦ rw (e, handle_request) (λ other account f. f)
        | inl e ↦ elim (Bool-cases (content_length == 0 || ltb 10000 content_length)) [
          | inl e' ↦ rw (e, e', handle_request) (λ other account f. f)
          | inr e' ↦
              rw (e, e', handle_request)
                (on_request-Keeps saving numbers (j.load_text (c_str body)) error_text file sound o)
        ]
      ]
