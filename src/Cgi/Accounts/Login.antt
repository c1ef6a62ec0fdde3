-- ===== src/Cgi/Accounts/Login.antt =====
-- Logging in after registering, and what a request that fails leaves of the users' file.
use caligo_engine.Base.{
  ℕ, ◌≤◌, ◌<◌, ◌≡◌, ◌≢◌, refl, sym, ap, ◌∙◌, Bool, true, false, Option, none, some, List, length,
  length-take, take, take_all, ◌==◌, if◌then◌else◌, arith, Bool-cases, inl, inr,
}
use caligo_engine.Base.Text.{codes, str_eq, str_eq_iff}
use caligo_engine.Cgi.Jansson.{Jansson, IsJansson}
use caligo_engine.Cgi.Accounts.{
  written, Reply, failure, registered, logged_in, get_string, get_flag, set_new, load_users,
  save_users, final_password, add_user, register_new, register_name, handle_register,
  stored_password, compare_password, log_in, handle_login,
}

playlists_password : codes "playlists" ≢ codes "password"
unfolding str_eq
playlists_password e =
    let t = (str_eq_iff (codes "playlists") (codes "password")).1 e in absurd (differ t)
  where
    differ : str_eq (codes "playlists") (codes "password") ≢ true
    differ t = let h : false ≡ true = t in cc

kept : (s : List ℕ) → length s ≤ 32 → str_eq s (take 32 s) ≡ true
kept s short = (str_eq_iff s (take 32 s)).1 (sym (take_all 32 s short))

cut : (s : List ℕ) → 32 < length s → str_eq s (take 32 s) ≡ false
cut s long = elim (Bool-cases (str_eq s (take 32 s))) [
  | inl e ↦
      absurd (omega (arith, ap length ((str_eq_iff s (take 32 s)).0 e), length-take 32 s, long))
  | inr e ↦ e
]

module _ (j : Jansson) (laws : IsJansson j) where
  -- The account that registering makes, whose password is the value `v`.
  abbrev account : j.Value → j.Value
  account v = j.set (j.set j.object (codes "password") v) (codes "playlists") j.object

  stored_password-account :
      (v : j.Value) (password : List ℕ)
      → j.string password ≡ some v
      → stored_password j (account v) ≡ some password
  unfolding stored_password get_string
  stored_password-account v password e =
      let first = laws.get-set j.object v (codes "password") laws.object-is_object in
      let other =
        laws.get-set_other (j.set j.object (codes "password") v) j.object (codes "playlists")
          (codes "password") playlists_password in
      rw (other ∙ first, stored_password, get_string, laws.string_value-string password v e)

  add_user-account :
      (users v : j.Value) (name password : List ℕ)
      → j.string password ≡ some v
      → add_user j users name password ≡ j.set users name (account v)
  unfolding add_user set_new
  add_user-account users v name password e = rw e refl

  pub load_users-save_users :
      (users : j.Value) (file : Option j.File)
      → j.is_object users ≡ true
      → load_users j (save_users j written users file) ≡ users
  unfolding load_users save_users
  load_users-save_users users file e = rw (laws.load-dump users e) refl

  log_in-add_user :
      (users v : j.Value) (name given password : List ℕ)
      → j.is_object users ≡ true
      → j.string password ≡ some v
      → log_in j (j.set users name (account v)) name given
        ≡ (if str_eq given password then logged_in name else failure 200 (codes "Invalid password"))
  unfolding log_in compare_password
  log_in-add_user users v name given password o e =
      rw (laws.get-set users (account v) name o, log_in, stored_password-account v password e)

  -- A registration with a password of the client's own.
  handle_register-new :
      (numbers name password : List ℕ) (request_data : j.Value) (file : Option j.File)
      → get_string j request_data (codes "name") ≡ some name
      → 0 < length name
      → get_flag j request_data (codes "generate") ≡ false
      → get_string j request_data (codes "password") ≡ some password
      → 0 < length password
      → j.get (load_users j file) name ≡ none
      → handle_register j written numbers request_data file ≡ (
        registered name (take 32 password),
        save_users j written (add_user j (load_users j file) name (take 32 password)) file,
      )
  unfolding handle_register register_name register_new final_password
  handle_register-new numbers name password request_data file named some_name plain given
        some_password free =
      rw (named, handle_register, no_zero name some_name, free, register_name)
        (ap (λ p. register_new j written name p (load_users j file) file)
          (ap (λ b. final_password j numbers b (get_string j request_data (codes "password"))) plain
            ∙ (ap (final_password j numbers false) given ∙ own)))
    where
      no_zero : (s : List ℕ) → 0 < length s → (length s == 0) ≡ false
      no_zero s h = ground arith

      own : final_password j numbers false (some password) ≡ take 32 password
      own = rw (no_zero password some_password) refl

  -- After a client has registered a new name with a password of its own, logging in with both succeeds
  -- exactly if the password has at most 32 bytes, if the users' file is written, what it held is an
  -- object, and the first 32 bytes are UTF-8.
  pub handle_login-handle_register :
      (numbers name password : List ℕ) (registration login : j.Value) (file : Option j.File)
      (v : j.Value)
      → get_string j registration (codes "name") ≡ some name
      → 0 < length name
      → get_flag j registration (codes "generate") ≡ false
      → get_string j registration (codes "password") ≡ some password
      → 0 < length password
      → j.is_object (load_users j file) ≡ true
      → j.get (load_users j file) name ≡ none
      → j.string (take 32 password) ≡ some v
      → get_string j login (codes "name") ≡ some name
      → get_string j login (codes "password") ≡ some password
      → ((handle_register j written numbers registration file).0
          ≡ registered name (take 32 password))
        × (length password ≤ 32
            → handle_login j login (handle_register j written numbers registration file).1
              ≡ logged_in name)
        × (32 < length password
            → handle_login j login (handle_register j written numbers registration file).1
              ≡ failure 200 (codes "Invalid password"))
  unfolding handle_login
  handle_login-handle_register numbers name password registration login file v named some_name plain
        given some_password o free text named' given' =
      let new =
        handle_register-new numbers name password registration file named some_name plain given
          some_password free in
      let users = load_users j file in
      let password' = take 32 password in
      let users' = j.set users name (account v) in
      let stored : load_users j (handle_register j written numbers registration file).1 ≡ users' =
        ap (λ (r : Reply × Option j.File). load_users j r.1) new
        ∙ (load_users-save_users (add_user j users name password') file (
              ap j.is_object (add_user-account users v name password' text)
              ∙ (laws.set-is_object users (account v) name ∙ o))
            ∙ add_user-account users v name password' text) in
      let login_is : handle_login j login (handle_register j written numbers registration file).1
          ≡ (if str_eq password password'
              then logged_in name
              else failure 200 (codes "Invalid password")) =
        rw (named', handle_login, given')
          (ap (λ u. log_in j u name password) stored
            ∙ log_in-add_user users v name password password' o text) in
      (
        ap (λ (r : Reply × Option j.File). r.0) new,
        λ short. login_is ∙ ap choose (kept password short),
        λ long. login_is ∙ ap choose (cut password long),
      )
    where
      choose : Bool → Reply
      choose b = if b then logged_in name else failure 200 (codes "Invalid password")
