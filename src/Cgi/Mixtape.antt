-- ===== src/Cgi/Mixtape.antt =====
-- cgi_bin/mixtape_app.c: the albums of a directory as an object of JSON, over the interface of Jansson.
-- The names in the directory, which of them are directories, and the files of metadata are arguments;
-- the content of the request, which main reads and frees, is left out.
pub mod Fields
pub mod Listing
use caligo_engine.Base.{
  ℕ, Bool, true, false, ◌||◌, Option, none, some, List, [], ◌∷◌, ◌++◌, map, length, take, ◌==◌,
  if◌then◌else◌,
}
use caligo_engine.Base.Decimal.{decimal}
use caligo_engine.Base.Text.{codes, concat, str_eq, to_lower}
use caligo_engine.Cgi.Accounts.{get_string, set_new}
use caligo_engine.Cgi.Jansson.{Jansson}

abbrev pub root_path : List ℕ
root_path = codes "public_html/mixtape"

abbrev pub url_base : List ℕ
url_base = codes "/mixtape"

abbrev crlf : List ℕ
crlf = 13 ∷ 10 ∷ []

-- strrchr(s, c), as the text from there on
unfoldable pub find_last : ℕ → List ℕ → Option (List ℕ)
find_last c [] = none
find_last c (d ∷ s) = elim (find_last c s) [
  | some t ↦ some t
  | none ↦ if c == d then some (d ∷ s) else none
]

-- strcasecmp(s, t) == 0
unfoldable pub same_ci : List ℕ → List ℕ → Bool
same_ci s t = str_eq (map to_lower s) (map to_lower t)

unfoldable pub is_image : List ℕ → Bool
is_image name = elim (find_last b'.' name) [
  | none ↦ false
  | some ext ↦
      same_ci ext (codes ".jpg") || same_ci ext (codes ".jpeg") || same_ci ext (codes ".png")
]

unfoldable pub is_mp3 : List ℕ → Bool
is_mp3 name = elim (find_last b'.' name) [ none ↦ false | some ext ↦ same_ci ext (codes ".mp3") ]

-- snprintf of "%s/%s" and of "%s/%s/%s", with room for 1023 characters
unfoldable pub path_of : List ℕ → List ℕ → List ℕ
path_of dir name = take 1023 (dir ++ (b'/' ∷ name))

unfoldable pub path_in : List ℕ → List ℕ → List ℕ → List ℕ
path_in dir folder name = take 1023 (dir ++ (b'/' ∷ (folder ++ (b'/' ∷ name))))

unfoldable pub is_dots : List ℕ → Bool
is_dots name = str_eq name (codes ".") || str_eq name (codes "..")

-- The text of main, with the object's.
unfoldable pub response : List ℕ → List ℕ
response json_dump = concat (
    codes "HTTP/1.1 200 OK"
    ∷ crlf
    ∷ codes "Content-Type: application/json"
    ∷ crlf
    ∷ codes "Content-Length: "
    ∷ decimal (length json_dump)
    ∷ crlf
    ∷ crlf
    ∷ json_dump
    ∷ [])

module _ (j : Jansson) where
  abbrev pub Metadata : Type 0
  Metadata = List ℕ → Option j.Value

  unfoldable pub track_object : List ℕ → List ℕ → List ℕ → j.Value
  track_object folder file title =
      set_new j (set_new j j.object (codes "title") (j.string title)) (codes "audio_url")
        (j.string (path_in url_base folder file))

  -- A track needs both its file and its title.
  unfoldable pub track_of : List ℕ → Option (List ℕ) → Option (List ℕ) → Option j.Value
  track_of folder none title = none
  track_of folder (some file) none = none
  track_of folder (some file) (some title) = some (track_object folder file title)

  unfoldable pub track : List ℕ → j.Value → Option j.Value
  track folder track_metadata =
      track_of folder (get_string j track_metadata (codes "file"))
        (get_string j track_metadata (codes "title"))

  unfoldable pub append_some : j.Value → Option j.Value → j.Value
  append_some array none = array
  append_some array (some v) = j.append array v

  unfoldable pub add_tracks : List ℕ → List j.Value → j.Value → j.Value
  add_tracks folder [] array = array
  add_tracks folder (t ∷ tracks) array =
      add_tracks folder tracks (append_some array (track folder t))

  unfoldable pub album_object : List ℕ → List ℕ → List ℕ → List ℕ → List j.Value → j.Value
  album_object folder album_title album_artist cover_file tracks =
      let album = set_new j j.object (codes "name") (j.string album_title) in
      let album' = set_new j album (codes "artist") (j.string album_artist) in
      let covered =
        set_new j album' (codes "cover") (j.string (path_in url_base folder cover_file)) in
      j.set covered (codes "tracks") (add_tracks folder tracks j.array)

  -- An album needs its title, its artist, its cover and an array of tracks.
  unfoldable pub album_of :
      List ℕ
      → Option (List ℕ)
      → Option (List ℕ)
      → Option (List ℕ)
      → Option (List j.Value)
      → Option j.Value
  album_of folder (some title) (some artist) (some cover) (some tracks) =
      some (album_object folder title artist cover tracks)
  album_of folder none artist cover tracks = none
  album_of folder (some title) none cover tracks = none
  album_of folder (some title) (some artist) none tracks = none
  album_of folder (some title) (some artist) (some cover) none = none

  unfoldable pub elements_of : Option j.Value → Option (List j.Value)
  elements_of none = none
  elements_of (some v) = j.elements v

  unfoldable pub album : List ℕ → j.Value → Option j.Value
  album folder metadata =
      album_of folder (get_string j metadata (codes "albumTitle"))
        (get_string j metadata (codes "albumArtist")) (get_string j metadata (codes "coverFile"))
        (elements_of (j.get metadata (codes "tracks")))

  unfoldable pub loaded : List ℕ → Option j.Value → Option j.Value
  loaded folder none = none
  loaded folder (some metadata) = album folder metadata

  -- A round of the loop over the directory.
  unfoldable pub entry_album : (List ℕ → Bool) → Metadata → List ℕ → Option j.Value
  entry_album is_dir load name =
      if is_dots name
      then none
      else if is_dir (path_of root_path name)
      then loaded name (load (path_in root_path name (codes "metadata.json")))
      else none

  unfoldable pub add_albums : (List ℕ → Bool) → Metadata → List (List ℕ) → j.Value → j.Value
  add_albums is_dir load [] albums = albums
  add_albums is_dir load (name ∷ names) albums =
      add_albums is_dir load names (append_some albums (entry_album is_dir load name))

  -- The object of main; `none` is a directory that is not there.
  unfoldable pub root_object : (List ℕ → Bool) → Metadata → Option (List (List ℕ)) → j.Value
  root_object is_dir load none = j.set j.object (codes "albums") j.array
  root_object is_dir load (some names) =
      j.set j.object (codes "albums") (add_albums is_dir load names j.array)

  unfoldable pub main : (List ℕ → Bool) → Metadata → Option (List (List ℕ)) → List ℕ
  main is_dir load none = response (j.dumps 0 (root_object is_dir load none))
  main is_dir load (some names) = response (j.dumps 2 (root_object is_dir load (some names)))
