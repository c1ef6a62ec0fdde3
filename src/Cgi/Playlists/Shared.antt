-- ===== src/Cgi/Playlists/Shared.antt =====
-- What the requests of one account find of each other's changes in the file.
use caligo_engine.Base.{
  ℕ, ◌<◌, ◌≡◌, refl, ap, ◌∙◌, true, false, Option, none, some, List, length, ◌==◌, arith,
}
use caligo_engine.Base.Text.{codes}
use caligo_engine.Cgi.Jansson.{Jansson, IsJansson}
use caligo_engine.Cgi.Accounts.{written, load_users, save_users}
use caligo_engine.Cgi.Accounts.Login.{load_users-save_users}
use caligo_engine.Cgi.Playlists.{put_list, create_in, create_playlist, append_to, add_to_playlist}

module _ (j : Jansson) where
  abbrev pub get_from : Option j.Value → List ℕ → Option j.Value
  get_from none key = none
  get_from (some o) key = j.get o key

  -- A playlist of an account, as a file has it.
  abbrev pub playlist : Option j.File → List ℕ → List ℕ → Option j.Value
  playlist file username name =
      get_from (get_from (j.get (load_users j file) username) (codes "playlists")) name

module _ (j : Jansson) (laws : IsJansson j) where
  -- A change that is saved is found.
  playlist-put_list :
      (file : Option j.File) (user playlists value : j.Value) (username name : List ℕ)
      → j.is_object (load_users j file) ≡ true
      → j.is_object user ≡ true
      → j.is_object playlists ≡ true
      → playlist j
          (save_users j written
            (put_list j (load_users j file) username user playlists name value)
            file)
          username
          name
        ≡ some value
  unfolding put_list
  playlist-put_list file user playlists value username name o o' o'' =
      let lists = j.set playlists name value in
      let account = j.set user (codes "playlists") lists in
      let db = j.set (load_users j file) username account in
      ap (λ u. get_from j (get_from j (j.get u username) (codes "playlists")) name)
        (load_users-save_users j laws db file
          (laws.set-is_object (load_users j file) account username ∙ o))
      ∙ (ap (λ a. get_from j (get_from j a (codes "playlists")) name)
            (laws.get-set (load_users j file) account username o)
          ∙ (ap (λ l. get_from j l name) (laws.get-set user lists (codes "playlists") o')
              ∙ laws.get-set playlists value name o''))

  -- A track added to a playlist that is there is at its end.
  add_to_playlist-there :
      (file : Option j.File) (user playlists track value : j.Value) (username name : List ℕ)
      → j.is_object (load_users j file) ≡ true
      → j.is_object user ≡ true
      → j.is_object playlists ≡ true
      → j.get (load_users j file) username ≡ some user
      → j.get user (codes "playlists") ≡ some playlists
      → j.get playlists name ≡ some value
      → playlist j
          (add_to_playlist j written
            (load_users j file)
            username
            (j.get (load_users j file) username)
            (some name)
            (some track)
            file).1
          username
          name
        ≡ some (j.append value track)
  unfolding add_to_playlist append_to
  add_to_playlist-there file user playlists track value username name o o' o'' known lists there =
      ap
        (λ u.
          seen
            (add_to_playlist j written (load_users j file) username u (some name) (some track)
              file).1)
        known
      ∙ (ap seen (rw (lists, append_to, there) refl)
          ∙ playlist-put_list file user playlists (j.append value track) username name o o' o'')
    where
      seen : Option j.File → Option j.Value
      seen f = playlist j f username name

  create_playlist-new :
      (file : Option j.File) (user playlists : j.Value) (username name : List ℕ)
      → j.is_object (load_users j file) ≡ true
      → j.get user (codes "playlists") ≡ some playlists
      → 0 < length name
      → j.get playlists name ≡ none
      → load_users j
          (create_playlist j written (load_users j file) username (some user) (some name) file).1
        ≡ put_list j (load_users j file) username user playlists name j.array
  unfolding create_playlist create_in put_list
  create_playlist-new file user playlists username name o lists named free =
      ap (load_users j) (rw (no_zero, lists, create_in, free) refl)
      ∙ load_users-save_users j laws
          (put_list j (load_users j file) username user playlists name j.array) file
          (laws.set-is_object (load_users j file) _ username ∙ o)
    where
      no_zero : (length name == 0) ≡ false
      no_zero = ground arith

  -- After an account with an object of playlists has created one under a new name and then added a
  -- track to it, the file has under this name the array of this track, if the file is written.
  pub add_to_playlist-create_playlist :
      (file : Option j.File) (user playlists track : j.Value) (username name : List ℕ)
      → j.is_object (load_users j file) ≡ true
      → j.is_object user ≡ true
      → j.is_object playlists ≡ true
      → j.get user (codes "playlists") ≡ some playlists
      → 0 < length name
      → j.get playlists name ≡ none
      → (let created =
            (create_playlist j written
              (load_users j file)
              username
              (some user)
              (some name)
              file).1 in
          playlist j
            (add_to_playlist j written
              (load_users j created)
              username
              (j.get (load_users j created) username)
              (some name)
              (some track)
              created).1
            username
            name
          ≡ some (j.append j.array track))
  unfolding put_list
  add_to_playlist-create_playlist file user playlists track username name o o' o'' lists named
        free =
      let created =
        (create_playlist j written (load_users j file) username (some user) (some name) file).1 in
      let lists' = j.set playlists name j.array in
      let user' = j.set user (codes "playlists") lists' in
      let e = create_playlist-new file user playlists username name o lists named free in
      add_to_playlist-there created user' lists' track j.array username name
        (ap j.is_object e ∙ (laws.set-is_object (load_users j file) user' username ∙ o))
        (laws.set-is_object user lists' (codes "playlists") ∙ o')
        (laws.set-is_object playlists j.array name ∙ o'')
        (ap (λ u. j.get u username) e ∙ laws.get-set (load_users j file) user' username o)
        (laws.get-set user lists' (codes "playlists") o') (laws.get-set playlists j.array name o'')
