-- ===== src/Cgi/Accounts.antt =====
-- cgi_bin/auth_app.c: registering and logging in, over the users' file. Jansson, the numbers of `rand`
-- and whether the file can be written are arguments; the log is left out.
pub mod Login
pub mod Safety
use caligo_engine.Base.{
  ℕ, ◌%◌, Bool, true, false, ◌||◌, Option, none, some, List, [], ◌∷◌, ◌++◌, length, take, map,
  get_or, ltb, ◌==◌, if◌then◌else◌,
}
use caligo_engine.Base.Text.{codes, str_eq, c_str}
use caligo_engine.Cgi.Jansson.{Jansson}

abbrev pub password_chars : List ℕ
password_chars = codes "abcdefghijklmnopqrstuvwxyzABCDEFGHIJKLMNOPQRSTUVWXYZ0123456789!@#$%^&*()"

-- The twelve numbers of `rand` give twelve characters.
unfoldable pub generate_password : List ℕ → List ℕ
generate_password numbers = map (λ r. get_or password_chars (r % length password_chars) 0) numbers

-- The status of the answer, and its body.
pub record Reply : Type 0 where
  pub status : ℕ
  pub body : List ℕ

unfoldable pub failure : ℕ → List ℕ → Reply
failure status error = record {
  status = status;
  body = codes "{\"success\": false, \"error\": \"" ++ (error ++ codes "\"}\n");
}

-- snprintf to `char body[512]`
unfoldable pub registered : List ℕ → List ℕ → Reply
registered name password = record {
  status = 200;
  body = take 511 (
      codes "{\"success\": true, \"name\": \""
      ++ (name ++ (codes "\", \"password\": \"" ++ (password ++ codes "\"}\n"))));
}

unfoldable pub logged_in : List ℕ → Reply
logged_in name = record {
  status = 200;
  body = take 511 (codes "{\"success\": true, \"name\": \"" ++ (name ++ codes "\"}\n"));
}

-- What becomes of the file that save_users saving: it is written whole; fopen fails and leaves it; or the
-- writing fails after fopen has emptied it, which is not tested, and a part of the text is there.
pub data Saving (F : Type 0) : Type 0 where
  written unopened : Saving F
  cut_off : F → Saving F

module _ (j : Jansson) where
  -- json_string_value(json_object_get(o, key))
  unfoldable pub get_string : j.Value → List ℕ → Option (List ℕ)
  get_string o key = elim (j.get o key) [ none ↦ none | some v ↦ j.string_value v ]

  unfoldable pub get_flag : j.Value → List ℕ → Bool
  get_flag o key = elim (j.get o key) [ none ↦ false | some v ↦ j.is_true v ]

  -- json_object_set_new, which refuses a null value.
  unfoldable pub set_new : j.Value → List ℕ → Option j.Value → j.Value
  set_new o key none = o
  set_new o key (some v) = j.set o key v

  -- `none` where there is no file.
  unfoldable pub load_users : Option j.File → j.Value
  load_users none = j.object
  load_users (some file) = elim (j.load_file file) [ none ↦ j.object | some users ↦ users ]

  unfoldable pub save_users : Saving j.File → j.Value → Option j.File → Option j.File
  save_users written users file = some (j.dump users)
  save_users unopened users file = file
  save_users (cut_off part) users file = some part

  -- The password that is kept, in `char final_password[33]`.
  unfoldable pub final_password : List ℕ → Bool → Option (List ℕ) → List ℕ
  final_password numbers generate none = generate_password numbers
  final_password numbers generate (some password) =
      if generate || length password == 0 then generate_password numbers else take 32 password

  unfoldable pub add_user : j.Value → List ℕ → List ℕ → j.Value
  add_user users name password = set_new users name (
      some (
        set_new (set_new j.object (codes "password") (j.string password)) (codes "playlists")
          (some j.object)))

  unfoldable pub register_new :
      Saving j.File → List ℕ → List ℕ → j.Value → Option j.File → Reply × Option j.File
  register_new saving name password users file =
      (registered name password, save_users saving (add_user users name password) file)

  unfoldable pub register_name :
      Saving j.File → List ℕ → j.Value → List ℕ → Option j.File → Reply × Option j.File
  register_name saving numbers request_data name file = elim (j.get (load_users file) name) [
    | some user ↦ (failure 200 (codes "User already exists"), file)
    | none ↦
        register_new saving name
          (final_password numbers (get_flag request_data (codes "generate"))
            (get_string request_data (codes "password")))
          (load_users file) file
  ]

  -- The answer, and the users' file.
  unfoldable pub handle_register :
      Saving j.File → List ℕ → j.Value → Option j.File → Reply × Option j.File
  handle_register saving numbers request_data file = elim (get_string request_data (codes "name")) [
    | none ↦ (failure 200 (codes "Name is required"), file)
    | some name ↦
        if length name == 0
        then (failure 200 (codes "Name is required"), file)
        else register_name saving numbers request_data name file
  ]

  -- The password of an account: an object's, or the account itself where it is a string.
  unfoldable pub stored_password : j.Value → Option (List ℕ)
  stored_password user = elim (get_string user (codes "password")) [
    | some password ↦ some password
    | none ↦ j.string_value user
  ]

  unfoldable pub compare_password : List ℕ → List ℕ → Option (List ℕ) → Reply
  compare_password name password none = failure 200 (codes "Invalid password")
  compare_password name password (some stored) =
      if str_eq password stored then logged_in name else failure 200 (codes "Invalid password")

  unfoldable pub log_in : j.Value → List ℕ → List ℕ → Reply
  log_in users name password = elim (j.get users name) [
    | none ↦ failure 200 (codes "User not found")
    | some user ↦ compare_password name password (stored_password user)
  ]

  unfoldable pub handle_login : j.Value → Option j.File → Reply
  handle_login request_data file = elim (get_string request_data (codes "name")) [
    | none ↦ failure 200 (codes "Name and password are required")
    | some name ↦ elim (get_string request_data (codes "password")) [
      | none ↦ failure 200 (codes "Name and password are required")
      | some password ↦ log_in (load_users file) name password
    ]
  ]

  -- main from json_loads on, where error_text is what Jansson says of a text that is not JSON.
  unfoldable pub on_action :
      Saving j.File → List ℕ → j.Value → List ℕ → Option j.File → Reply × Option j.File
  on_action saving numbers request_data action file =
      if str_eq action (codes "register")
      then handle_register saving numbers request_data file
      else if str_eq action (codes "login")
      then (handle_login request_data file, file)
      else (failure 400 (codes "Unknown action"), file)

  unfoldable pub on_request :
      Saving j.File → List ℕ → Option j.Value → List ℕ → Option j.File → Reply × Option j.File
  on_request saving numbers none error_text file = (
    record {
      status = 400;
      body = take 255 (
          codes "{\"success\": false, \"error\": \"Invalid JSON\", \"debug_msg\": \""
          ++ (error_text ++ codes "\"}\n"));
    },
    file,
  )
  on_request saving numbers (some request_data) error_text file =
      elim (get_string request_data (codes "action")) [
        | none ↦ (failure 400 (codes "Action is required"), file)
        | some action ↦ on_action saving numbers request_data action file
      ]

  -- main, where no REQUEST_METHOD is an empty method, with what `atoi` makes of CONTENT_LENGTH, where 0
  -- stands for a negative number too, and the
  -- body that is read.
  unfoldable pub handle_request :
      Saving j.File → List ℕ → List ℕ → ℕ → List ℕ → List ℕ → Option j.File → Reply × Option j.File
  handle_request saving numbers method content_length body error_text file =
      if str_eq method (codes "POST")
      then if content_length == 0 || ltb 10000 content_length
        then (failure 400 (codes "Invalid content length"), file)
        else on_request saving numbers (j.load_text (c_str body)) error_text file
      else (failure 405 (codes "Only POST method is supported"), file)
