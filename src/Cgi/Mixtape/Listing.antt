-- ===== src/Cgi/Mixtape/Listing.antt =====
-- What the listing of the albums holds.
use caligo_engine.Base.{
  ℕ, ◌≡◌, refl, ap, ◌∙◌, Bool, true, false, Option, none, some, List, [], ◌∷◌, ◌++◌,
}
use caligo_engine.Base.Text.{codes}
use caligo_engine.Cgi.Accounts.{get_string}
use caligo_engine.Cgi.Jansson.{Jansson, IsJansson}
use caligo_engine.Cgi.Mixtape.{
  root_path, is_dots, path_of, loaded, path_in, Metadata, track_object, track_of, track,
  album_object, album_of, elements_of, album, entry_album, add_albums, root_object,
}
use caligo_engine.Cgi.Mixtape.Fields.{
  present, filter_map, filter_map-append, add_albums-elements, get_string-source,
  album_object-title, album_object-artist, album_object-tracks,
}

module _ (j : Jansson) where
  -- A track with a file and a title, in front of the others; without one of them it is left out.
  unfoldable pub with_both :
      List ℕ → Option (List ℕ) → Option (List ℕ) → List j.Value → List j.Value
  with_both folder (some file) (some title) rest = track_object j folder file title ∷ rest
  with_both folder (some file) none rest = rest
  with_both folder none (some title) rest = rest
  with_both folder none none rest = rest

  -- The tracks of an album by their fields.
  unfoldable pub tracks_listed : List ℕ → List j.Value → List j.Value
  tracks_listed folder [] = []
  tracks_listed folder (t ∷ tracks) =
      with_both folder (get_string j t (codes "file")) (get_string j t (codes "title"))
        (tracks_listed folder tracks)

  track_of-with_both :
      (folder : List ℕ) (file title : Option (List ℕ)) (rest : List j.Value)
      → present (track_of j folder file title) rest ≡ with_both folder file title rest
  unfolding track_of with_both
  track_of-with_both folder (some file) (some title) rest = refl
  track_of-with_both folder (some file) none rest = refl
  track_of-with_both folder none (some title) rest = refl
  track_of-with_both folder none none rest = refl

  filter_map-tracks_listed :
      (folder : List ℕ) (tracks : List j.Value)
      → filter_map (track j folder) tracks ≡ tracks_listed folder tracks
  unfolding tracks_listed track
  filter_map-tracks_listed folder [] = refl
  filter_map-tracks_listed folder (t ∷ tracks) =
      ap (present (track j folder t)) (filter_map-tracks_listed folder tracks)
      ∙ track_of-with_both folder (get_string j t (codes "file")) (get_string j t (codes "title"))
          (tracks_listed folder tracks)

module _ (j : Jansson) (laws : IsJansson j) where
  album-all :
      (folder title artist cover : List ℕ) (metadata : j.Value) (tracks : List j.Value)
      → get_string j metadata (codes "albumTitle") ≡ some title
      → get_string j metadata (codes "albumArtist") ≡ some artist
      → get_string j metadata (codes "coverFile") ≡ some cover
      → elements_of j (j.get metadata (codes "tracks")) ≡ some tracks
      → album j folder metadata ≡ some (album_object j folder title artist cover tracks)
  unfolding album album_of
  album-all folder title artist cover metadata tracks titled by covered listed =
      rw (titled, by, covered, listed, album_of) refl

  entry_album-all :
      (is_dir : List ℕ → Bool) (load : Metadata j) (name : List ℕ) (metadata v : j.Value)
      → is_dots name ≡ false
      → is_dir (path_of root_path name) ≡ true
      → load (path_in root_path name (codes "metadata.json")) ≡ some metadata
      → album j name metadata ≡ some v
      → entry_album j is_dir load name ≡ some v
  unfolding entry_album loaded
  entry_album-all is_dir load name metadata v no_dots dir loads e =
      rw (no_dots, dir) (ap (loaded j name) loads ∙ e)

  -- A directory whose metadata has a title, an artist, a cover and an array of tracks has an album in the
  -- answer, at its place among the albums of the others, with that title and artist, and with the
  -- tracks of the array that have both a file and a title, in order.
  pub root_object-album :
      (is_dir : List ℕ → Bool) (load : Metadata j) (before after : List (List ℕ))
      (name title artist cover : List ℕ) (metadata : j.Value) (tracks : List j.Value)
      → is_dots name ≡ false
      → is_dir (path_of root_path name) ≡ true
      → load (path_in root_path name (codes "metadata.json")) ≡ some metadata
      → get_string j metadata (codes "albumTitle") ≡ some title
      → get_string j metadata (codes "albumArtist") ≡ some artist
      → get_string j metadata (codes "coverFile") ≡ some cover
      → elements_of j (j.get metadata (codes "tracks")) ≡ some tracks
      → let others = filter_map (entry_album j is_dir load) in
        (v : j.Value) × (elements_of j
            (j.get (root_object j is_dir load (some (before ++ name ∷ after))) (codes "albums"))
          ≡ some (others before ++ v ∷ others after))
        × (get_string j v (codes "name") ≡ some title)
        × (get_string j v (codes "artist") ≡ some artist)
        × (elements_of j (j.get v (codes "tracks")) ≡ some (tracks_listed j name tracks))
  unfolding root_object elements_of
  root_object-album is_dir load before after name title artist cover metadata tracks no_dots dir
        loads titled by covered listed =
      let names : List (List ℕ) = before ++ name ∷ after in
      let v = album_object j name title artist cover tracks in
      let here =
        entry_album-all is_dir load name metadata v no_dots dir loads
          (album-all name title artist cover metadata tracks titled by covered listed) in
      let (a, a_is) = get_string-source j laws metadata (codes "albumTitle") title titled in
      let (b, b_is) = get_string-source j laws metadata (codes "albumArtist") artist by in
      (
        v,
        ap (elements_of j) (
              laws.get-set j.object (add_albums j is_dir load names j.array) (codes "albums")
                laws.object-is_object)
            ∙ (add_albums-elements j laws is_dir load names j.array [] laws.elements-array
                ∙ (ap some (filter_map-append (entry_album j is_dir load) before (name ∷ after))
                    ∙ ap
                        (λ o. some (
                          filter_map (entry_album j is_dir load) before
                          ++ present o (filter_map (entry_album j is_dir load) after)))
                        here)),
        album_object-title j laws name title artist cover tracks a a_is,
        album_object-artist j laws name title artist cover tracks b b_is,
        album_object-tracks j laws name title artist cover tracks
            ∙ ap some (filter_map-tracks_listed j name tracks),
      )
