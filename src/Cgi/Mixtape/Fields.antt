-- ===== src/Cgi/Mixtape/Fields.antt =====
-- The arrays and the fields of the objects that are built.
use caligo_engine.Base.{
  ℕ, ◌≡◌, ◌≢◌, refl, sym, ap, ◌∙◌, Bool, true, false, Option, none, some, List, [], ◌∷◌, ◌++◌,
  append-nil, append_assoc, Option-cases, inl, inr,
}
use caligo_engine.Base.Text.{codes, str_eq, str_eq_iff}
use caligo_engine.Cgi.Accounts.{get_string, set_new}
use caligo_engine.Cgi.Jansson.{Jansson, IsJansson}
use caligo_engine.Cgi.Mixtape.{
  path_in, url_base, Metadata, track, append_some, add_tracks, album_object, elements_of,
  entry_album, add_albums,
}

-- The values that are there.
abbrev pub present {ℓ} : {A : Type ℓ} → Option A → List A → List A
present none rest = rest
present (some a) rest = a ∷ rest

abbrev pub filter_map {ℓ κ} : {A : Type ℓ} {B : Type κ} → (A → Option B) → List A → List B
filter_map f [] = []
filter_map f (a ∷ xs) = present (f a) (filter_map f xs)

present-append {ℓ} :
    {A : Type ℓ} (o : Option A) (xs ys : List A) → present o (xs ++ ys) ≡ present o xs ++ ys
present-append none xs ys = refl
present-append (some a) xs ys = refl

pub filter_map-append {ℓ κ} :
    {A : Type ℓ} {B : Type κ} (f : A → Option B) (xs ys : List A)
    → filter_map f (xs ++ ys) ≡ filter_map f xs ++ filter_map f ys
filter_map-append f [] ys = refl
filter_map-append f (a ∷ xs) ys =
    ap (present (f a)) (filter_map-append f xs ys)
    ∙ present-append (f a) (filter_map f xs) (filter_map f ys)

differ : (s t : List ℕ) → str_eq s t ≡ false → s ≢ t
differ s t e same = let h : false ≡ true = sym e ∙ (str_eq_iff s t).1 same in absurd (clash h)
  where
    clash : false ≡ true → ⊥
    clash h = cc

module _ (j : Jansson) (laws : IsJansson j) where
  append_some-elements :
      (array : j.Value) (vs : List j.Value) (o : Option j.Value) (rest : List j.Value)
      (end : j.Value → j.Value)
      → j.elements array ≡ some vs
      → ((a : j.Value) (ws : List j.Value)
          → j.elements a ≡ some ws
          → j.elements (end a) ≡ some (ws ++ rest))
      → j.elements (end (append_some j array o)) ≡ some (vs ++ present o rest)
  unfolding append_some
  append_some-elements array vs none rest end h next = next array vs h
  append_some-elements array vs (some v) rest end h next =
      next (j.append array v) (vs ++ v ∷ []) (laws.elements-append array v vs h)
      ∙ ap some (append_assoc vs (v ∷ []) rest)

  add_tracks-elements :
      (folder : List ℕ) (tracks : List j.Value) (array : j.Value) (vs : List j.Value)
      → j.elements array ≡ some vs
      → j.elements (add_tracks j folder tracks array)
        ≡ some (vs ++ filter_map (track j folder) tracks)
  unfolding add_tracks
  add_tracks-elements folder [] array vs h = h ∙ ap some (sym (append-nil vs))
  add_tracks-elements folder (t ∷ tracks) array vs h =
      append_some-elements array vs (track j folder t) (filter_map (track j folder) tracks)
        (add_tracks j folder tracks) h (add_tracks-elements folder tracks)

  pub add_albums-elements :
      (is_dir : List ℕ → Bool) (load : Metadata j) (names : List (List ℕ)) (array : j.Value)
      (vs : List j.Value)
      → j.elements array ≡ some vs
      → j.elements (add_albums j is_dir load names array)
        ≡ some (vs ++ filter_map (entry_album j is_dir load) names)
  unfolding add_albums
  add_albums-elements is_dir load [] array vs h = h ∙ ap some (sym (append-nil vs))
  add_albums-elements is_dir load (name ∷ names) array vs h =
      append_some-elements array vs (entry_album j is_dir load name)
        (filter_map (entry_album j is_dir load) names) (add_albums j is_dir load names) h
        (add_albums-elements is_dir load names)

  get-set_new_other :
      (o : j.Value) (key other : List ℕ) (v : Option j.Value)
      → key ≢ other
      → j.get (set_new j o key v) other ≡ j.get o other
  unfolding set_new
  get-set_new_other o key other none apart = refl
  get-set_new_other o key other (some v) apart = laws.get-set_other o v key other apart

  set_new-is_object :
      (o : j.Value) (key : List ℕ) (v : Option j.Value)
      → j.is_object o ≡ true
      → j.is_object (set_new j o key v) ≡ true
  unfolding set_new
  set_new-is_object o key none h = h
  set_new-is_object o key (some v) h = laws.set-is_object o v key ∙ h

  get_string-some :
      (o v : j.Value) (key s : List ℕ)
      → j.get o key ≡ some v
      → j.string_value v ≡ some s
      → get_string j o key ≡ some s
  unfolding get_string
  get_string-some o v key s e h = rw (e, get_string) h

  -- A text that was read from JSON, set and read again.
  get_string-set_new :
      (o rest : j.Value) (key : List ℕ) (source : j.Value) (s : List ℕ)
      → j.is_object o ≡ true
      → j.string_value source ≡ some s
      → j.get rest key ≡ j.get (set_new j o key (j.string s)) key
      → get_string j rest key ≡ some s
  unfolding set_new
  get_string-set_new o rest key source s is_object is same =
      let (w, e) = laws.string-string_value source s is in
      get_string-some rest w key s
        (same ∙ (ap (λ v. j.get (set_new j o key v) key) e ∙ laws.get-set o w key is_object))
        (laws.string_value-string s w e)

  pub get_string-source :
      (o : j.Value) (key s : List ℕ)
      → get_string j o key ≡ some s
      → (v : j.Value) × (j.string_value v ≡ some s)
  unfolding get_string
  get_string-source o key s h = elim (Option-cases (j.get o key)) [
    | inl e ↦ absurd (no_text s (sym (no_value e) ∙ h))
    | inr (v, e) ↦ (v, sym (with_value v e) ∙ h)
  ]
    where
      no_text : (s : List ℕ) → none ≡ some s → ⊥
      no_text s e = cc

      no_value : j.get o key ≡ none → get_string j o key ≡ none
      no_value e = rw (e, get_string) refl

      with_value : (v : j.Value) → j.get o key ≡ some v → get_string j o key ≡ j.string_value v
      with_value v e = rw (e, get_string) refl

  pub album_object-title :
      (folder title artist cover : List ℕ) (tracks : List j.Value) (source : j.Value)
      → j.string_value source ≡ some title
      → get_string j (album_object j folder title artist cover tracks) (codes "name") ≡ some title
  unfolding album_object str_eq
  album_object-title folder title artist cover tracks source is =
      get_string-set_new j.object _ (codes "name") source title laws.object-is_object is (
        laws.get-set_other _ _ (codes "tracks") (codes "name") (differ _ _ refl)
        ∙ (get-set_new_other _ (codes "cover") (codes "name") _ (differ _ _ refl)
            ∙ get-set_new_other _ (codes "artist") (codes "name") _ (differ _ _ refl)))

  pub album_object-artist :
      (folder title artist cover : List ℕ) (tracks : List j.Value) (source : j.Value)
      → j.string_value source ≡ some artist
      → get_string j (album_object j folder title artist cover tracks) (codes "artist")
        ≡ some artist
  unfolding album_object str_eq
  album_object-artist folder title artist cover tracks source is =
      get_string-set_new (set_new j j.object (codes "name") (j.string title)) _ (codes "artist")
        source artist (set_new-is_object j.object (codes "name") _ laws.object-is_object) is
        (laws.get-set_other _ _ (codes "tracks") (codes "artist") (differ _ _ refl)
          ∙ get-set_new_other _ (codes "cover") (codes "artist") _ (differ _ _ refl))

  pub album_object-tracks :
      (folder title artist cover : List ℕ) (tracks : List j.Value)
      → elements_of j (j.get (album_object j folder title artist cover tracks) (codes "tracks"))
        ≡ some (filter_map (track j folder) tracks)
  unfolding album_object elements_of
  album_object-tracks folder title artist cover tracks =
      let named = set_new j j.object (codes "name") (j.string title) in
      let by = set_new j named (codes "artist") (j.string artist) in
      let covered = set_new j by (codes "cover") (j.string (path_in url_base folder cover)) in
      let is_object = set_new-is_object by (codes "cover") _ (
        set_new-is_object named (codes "artist") _
          (set_new-is_object j.object (codes "name") _ laws.object-is_object)) in
      ap (elements_of j)
        (laws.get-set covered (add_tracks j folder tracks j.array) (codes "tracks") is_object)
      ∙ add_tracks-elements folder tracks j.array [] laws.elements-array
