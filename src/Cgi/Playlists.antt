-- ===== src/Cgi/Playlists.antt =====
-- cgi_bin/playlist_manager.c: the playlists of the accounts, over the interface of Jansson. What is
-- written by one call is a value here, so a change of a playlist is put back into its account and the
-- account into the file's object. load_db and save_db are load_users and save_users of auth_app.c. The
-- directory of the file is left out, and so is the text of the
-- response.
pub mod Shared
use caligo_engine.Base.{
  ℕ, Bool, true, false, Option, none, some, List, [], ◌∷◌, length, ◌==◌, if◌then◌else◌,
}
use caligo_engine.Base.Text.{codes, str_eq, c_str}
use caligo_engine.Cgi.Jansson.{Jansson}
use caligo_engine.Cgi.Accounts.{Saving, get_string, set_new, load_users, save_users}

module _ (j : Jansson) where
  -- The response and the file.
  abbrev pub Result : Type 0
  Result = j.Value × Option j.File

  unfoldable pub with_status : j.Value → List ℕ → j.Value
  with_status response status = set_new j response (codes "status") (j.string status)

  unfoldable pub error : List ℕ → j.Value
  error message =
      set_new j (with_status j.object (codes "error")) (codes "message") (j.string message)

  unfoldable pub success : j.Value
  success = with_status j.object (codes "success")

  unfoldable pub get_playlists : Option j.Value → j.Value
  get_playlists none = with_status (j.set j.object (codes "playlists") j.object) (codes "success")
  get_playlists (some user) =
      with_status (set_new j j.object (codes "playlists") (j.get user (codes "playlists")))
        (codes "success")

  -- The file's object with a playlist of an account set.
  unfoldable pub put_list : j.Value → List ℕ → j.Value → j.Value → List ℕ → j.Value → j.Value
  put_list db username user playlists name value =
      j.set db username (j.set user (codes "playlists") (j.set playlists name value))

  -- A playlist that is there is kept; an account with no playlists is saved as it is.
  unfoldable pub create_in :
      Saving j.File
      → j.Value
      → List ℕ
      → j.Value
      → List ℕ
      → Option j.Value
      → Option j.File
      → Option j.File
  create_in saving db username user name none file = save_users j saving db file
  create_in saving db username user name (some playlists) file = elim (j.get playlists name) [
    | some value ↦ file
    | none ↦ save_users j saving (put_list db username user playlists name j.array) file
  ]

  unfoldable pub create_playlist :
      Saving j.File → j.Value → List ℕ → Option j.Value → Option (List ℕ) → Option j.File → Result
  create_playlist saving db username none name file = (error (codes "Invalid name"), file)
  create_playlist saving db username (some user) none file = (error (codes "Invalid name"), file)
  create_playlist saving db username (some user) (some name) file =
      if length name == 0
      then (error (codes "Invalid name"), file)
      else (success, create_in saving db username user name (j.get user (codes "playlists")) file)

  unfoldable pub append_to :
      Saving j.File
      → j.Value
      → List ℕ
      → j.Value
      → List ℕ
      → j.Value
      → Option j.Value
      → Option j.File
      → Result
  append_to saving db username user name track none file =
      (error (codes "Playlist not found"), file)
  append_to saving db username user name track (some playlists) file = elim (j.get playlists name) [
    | none ↦ (error (codes "Playlist not found"), file)
    | some value ↦ (
      success,
      save_users j saving (put_list db username user playlists name (j.append value track)) file,
    )
  ]

  unfoldable pub add_to_playlist :
      Saving j.File
      → j.Value
      → List ℕ
      → Option j.Value
      → Option (List ℕ)
      → Option j.Value
      → Option j.File
      → Result
  add_to_playlist saving db username (some user) (some name) (some track) file =
      append_to saving db username user name track (j.get user (codes "playlists")) file
  add_to_playlist saving db username none name track file =
      (error (codes "Missing track data"), file)
  add_to_playlist saving db username (some user) none track file =
      (error (codes "Missing track data"), file)
  add_to_playlist saving db username (some user) (some name) none file =
      (error (codes "Missing track data"), file)

  -- An unknown action gets an empty response.
  unfoldable pub on_playlists :
      Saving j.File → j.Value → List ℕ → List ℕ → j.Value → Option j.File → Result
  on_playlists saving input action username db file =
      if str_eq action (codes "get_playlists")
      then (get_playlists (j.get db username), file)
      else if str_eq action (codes "create_playlist")
      then create_playlist saving db username (j.get db username)
          (get_string j input (codes "playlist_name")) file
      else if str_eq action (codes "add_to_playlist")
      then add_to_playlist saving db username (j.get db username)
          (get_string j input (codes "playlist_name")) (j.get input (codes "track")) file
      else (j.object, file)

  unfoldable pub with_fields :
      Saving j.File → j.Value → Option (List ℕ) → Option (List ℕ) → Option j.File → Result
  with_fields saving input (some action) (some username) file =
      on_playlists saving input action username (load_users j file) file
  with_fields saving input none username file = (error (codes "Missing fields"), file)
  with_fields saving input (some action) none file = (error (codes "Missing fields"), file)

  -- main, with the body that is read.
  unfoldable pub manage : Saving j.File → List ℕ → Option j.File → Result
  manage saving buffer file = elim (j.load_text (c_str buffer)) [
    | none ↦ (error (codes "Invalid JSON"), file)
    | some input ↦
        with_fields saving input (get_string j input (codes "action"))
          (get_string j input (codes "username")) file
  ]
