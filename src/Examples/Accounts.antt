-- ===== src/Examples/Accounts.antt =====
-- Concrete inputs for the accounts.
use caligo_engine.Base.{◌≤◌, ◌<◌, ◌≡◌, refl, none, some, [], arith}
use caligo_engine.Base.Text.{codes, str_eq}
use caligo_engine.Cgi.Accounts.{
  written, registered, logged_in, failure, get_string, get_flag, load_users, handle_register,
  handle_login, handle_request,
}
use caligo_engine.Cgi.Playlists.{create_playlist, add_to_playlist}
use caligo_engine.Cgi.Playlists.Shared.{playlist, add_to_playlist-create_playlist}
use caligo_engine.Cgi.Accounts.Login.{handle_login-handle_register}
use caligo_engine.Cgi.Accounts.Safety.{Keeps, handle_request-Keeps}
use caligo_engine.Examples.Json.{
  Json, text, nil, cell, empty, entry, get_json, small, small-IsJansson,
}

-- Ana's request, with a password of six bytes.
abbrev ana : Json
ana =
    entry (codes "name") (text (codes "ana"))
      (entry (codes "password") (text (codes "secret")) empty)

handle_login-handle_register_example :
    ((handle_register small written [] ana none).0 ≡ registered (codes "ana") (codes "secret"))
    × (6 ≤ 32
        → handle_login small ana (handle_register small written [] ana none).1
          ≡ logged_in (codes "ana"))
    × (32 < 6
        → handle_login small ana (handle_register small written [] ana none).1
          ≡ failure 200 (codes "Invalid password"))
handle_login-handle_register_example =
    handle_login-handle_register small small-IsJansson [] (codes "ana") (codes "secret") ana ana
      none (text (codes "secret")) (unfold get_string get_json str_eq in refl) (omega arith)
      (unfold get_flag get_json str_eq in refl) (unfold get_string get_json str_eq in refl)
      (omega arith) (unfold load_users in refl) (unfold load_users get_json in refl) refl
      (unfold get_string get_json str_eq in refl) (unfold get_string get_json str_eq in refl)

abbrev old_users : Json
old_users = entry (codes "ana") (text (codes "old")) empty

handle_request-Keeps_example :
    Keeps small
      (some old_users)
      (handle_request small written [] (codes "POST") 8 (codes "register") [] (some old_users)).1
handle_request-Keeps_example =
    handle_request-Keeps small small-IsJansson written [] (codes "POST") 8 (codes "register") []
      (some old_users) tt (unfold load_users in refl)

abbrev old_account : Json
old_account = entry (codes "playlists") empty empty

abbrev listeners : Json
listeners = entry (codes "ana") old_account empty

add_to_playlist-create_playlist_example :
    (let created =
        (create_playlist small written
          (load_users small (some listeners))
          (codes "ana")
          (some old_account)
          (some (codes "jazz"))
          (some listeners)).1 in
      playlist small
        (add_to_playlist small written
          (load_users small created)
          (codes "ana")
          (get_json (load_users small created) (codes "ana"))
          (some (codes "jazz"))
          (some (text (codes "song")))
          created).1
        (codes "ana")
        (codes "jazz")
      ≡ some (cell (text (codes "song")) nil))
add_to_playlist-create_playlist_example =
    add_to_playlist-create_playlist small small-IsJansson (some listeners) old_account empty
      (text (codes "song")) (codes "ana") (codes "jazz") (unfold load_users in refl) refl refl
      (unfold get_json str_eq in refl) (omega arith) (unfold get_json in refl)
