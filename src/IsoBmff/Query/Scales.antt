-- ===== src/IsoBmff/Query/Scales.antt =====
-- getTimeScale on the boxes of a well-formed structure.
use openplatform_rdk_aamp.Prelude.{
  ℕ, ◌+◌, ◌≡◌, refl, ap, List, [], ◌∷◌, ◌++◌, Bool, true, false, ◌∙◌, inl, inr, ◌⊎◌,
}
use openplatform_rdk_aamp.IsoBmff.{Boxes, nil, cons, moov, trak, is_type}
use openplatform_rdk_aamp.IsoBmff.Tree.{
  Tree, leaf, node, movie_header, media_header, decode_time, Header, Trees, none_left, before,
  box_of, boxes_of, tree_size, WellFormed, AllWellFormed,
}
use openplatform_rdk_aamp.IsoBmff.Query.{found, scan_boxes, get_time_scale}
use openplatform_rdk_aamp.IsoBmff.Query.Times.{container_type-ne}

-- The time scales of the media headers, in the order of the file.
unfoldable mutual
  pub media_scales : Tree → List ℕ
  media_scales (leaf type payload) = []
  media_scales (node type trees) = media_scales_all trees
  media_scales (movie_header h) = []
  media_scales (media_header h) = h.time_scale ∷ []
  media_scales (decode_time d) = []

  pub media_scales_all : Trees → List ℕ
  media_scales_all none_left = []
  media_scales_all (before t ts) = media_scales t ++ media_scales_all ts

-- Those of the movie headers.
unfoldable mutual
  pub movie_scales : Tree → List ℕ
  movie_scales (leaf type payload) = []
  movie_scales (node type trees) = movie_scales_all trees
  movie_scales (movie_header h) = h.time_scale ∷ []
  movie_scales (media_header h) = []
  movie_scales (decode_time d) = []

  pub movie_scales_all : Trees → List ℕ
  movie_scales_all none_left = []
  movie_scales_all (before t ts) = movie_scales t ++ movie_scales_all ts

abbrev pub last_or : ℕ → List ℕ → ℕ
last_or default [] = default
last_or default (v ∷ vs) = last_or v vs

last_or-append :
    (xs ys : List ℕ) (default : ℕ) → last_or default (xs ++ ys) ≡ last_or (last_or default xs) ys
last_or-append [] ys default = refl
last_or-append (x ∷ xs) ys default = last_or-append xs ys x

append-nil_left : (xs ys : List ℕ) → xs ++ ys ≡ [] → xs ≡ []
append-nil_left [] ys e = refl
append-nil_left (x ∷ xs) ys e = absurd (cc)

append-nil_right : (xs ys : List ℕ) → xs ++ ys ≡ [] → ys ≡ []
append-nil_right [] ys e = e
append-nil_right (x ∷ xs) ys e = absurd (cc)

-- `for (...; (false == foundMdhd) && ...)`
scan_done :
    (boxes : Boxes) (ret : Bool) (v : ℕ)
    → scan_boxes boxes (record { ret = ret; time_scale = v; found_mdhd = true })
      ≡ found (record { ret = ret; time_scale = v; found_mdhd = true })
unfolding scan_boxes
scan_done nil ret v = refl
scan_done (cons b bs) ret v = refl

abbrev Silent : Boxes → ℕ → ℕ → Type 0
Silent boxes s v =
    (ret : Bool)
    → (after : Bool) × (scan_boxes boxes (record { ret = ret; time_scale = s; found_mdhd = false })
        ≡ found (record { ret = after; time_scale = v; found_mdhd = false }))

-- Without a media header the last movie header gives the time scale.
scan-Silent :
    (ts : Trees) (offset s : ℕ)
    → AllWellFormed ts
    → media_scales_all ts ≡ []
    → Silent (boxes_of offset ts) s (last_or s (movie_scales_all ts))
unfolding scan_boxes box_of media_scales movie_scales WellFormed is_type
scan-Silent none_left offset s w e ret = (ret, refl)
scan-Silent (before (leaf type payload) ts) offset s (w, ws) e ret =
    rw (w.1.2, w.1.3) (scan-Silent ts (offset + tree_size (leaf type payload)) s ws e ret)
scan-Silent (before (node type trees) ts) offset s (w, ws) e ret =
    let ne = container_type-ne type w.1 in
    let inner = scan-Silent trees 8 s w.3 (append-nil_left _ (media_scales_all ts) e) false in
    let next =
      scan-Silent ts (offset + tree_size (node type trees)) (last_or s (movie_scales_all trees)) ws
        (append-nil_right (media_scales_all trees) _ e) inner.0 in
    rw (ne.1, ne.2, inner.1, last_or-append (movie_scales_all trees) (movie_scales_all ts) s) next
scan-Silent (before (movie_header h) ts) offset s (w, ws) e ret =
    scan-Silent ts (offset + tree_size (movie_header h)) h.time_scale ws e true
scan-Silent (before (media_header h) ts) offset s (w, ws) e ret = absurd (cc)
scan-Silent (before (decode_time d) ts) offset s (w, ws) e ret =
    scan-Silent ts (offset + tree_size (decode_time d)) s ws e ret

-- A list with a first element has it in its first part, or that part is empty.
append-first :
    (xs ys vs : List ℕ) (v : ℕ)
    → xs ++ ys ≡ v ∷ vs
    → ((xs ≡ []) × (ys ≡ v ∷ vs)) ⊎ ((us : List ℕ) × (xs ≡ v ∷ us))
append-first [] ys vs v e = inl (refl, e)
append-first (x ∷ xs) ys vs v e = inr (xs, cc)

abbrev Decided : Boxes → ℕ → ℕ → Type 0
Decided boxes s v =
    (ret : Bool)
    → scan_boxes boxes (record { ret = ret; time_scale = s; found_mdhd = false })
      ≡ found (record { ret = true; time_scale = v; found_mdhd = true })

scan_media :
    (ts : Trees) (offset s v : ℕ) (vs : List ℕ)
    → AllWellFormed ts
    → media_scales_all ts ≡ v ∷ vs
    → Decided (boxes_of offset ts) s v
unfolding scan_boxes box_of media_scales movie_scales WellFormed is_type
scan_media none_left offset s v vs w e ret = absurd (cc)
scan_media (before (leaf type payload) ts) offset s v vs (w, ws) e ret =
    rw (w.1.2, w.1.3) (scan_media ts (offset + tree_size (leaf type payload)) s v vs ws e ret)
scan_media (before (node type trees) ts) offset s v vs (w, ws) e ret =
    let ne = container_type-ne type w.1 in
    elim (append-first (media_scales_all trees) (media_scales_all ts) vs v e) [
      | inl (here, there) ↦
          let inner = scan-Silent trees 8 s w.3 here false in
          let next =
            scan_media ts (offset + tree_size (node type trees))
              (last_or s (movie_scales_all trees)) v vs ws there inner.0 in
          rw (ne.1, ne.2, inner.1) next
      | inr (us, here) ↦
          rw (ne.1, ne.2, scan_media trees 8 s v us w.3 here false)
            (scan_done (boxes_of (offset + tree_size (node type trees)) ts) true v)
    ]
scan_media (before (movie_header h) ts) offset s v vs (w, ws) e ret =
    scan_media ts (offset + tree_size (movie_header h)) h.time_scale v vs ws e true
scan_media (before (media_header h) ts) offset s v vs (w, ws) e ret =
    let same : h.time_scale ≡ v = cc in
    scan_done (boxes_of (offset + tree_size (media_header h)) ts) true h.time_scale
    ∙ ap (λ (n : ℕ). found (record { ret = true; time_scale = n; found_mdhd = true })) same
scan_media (before (decode_time d) ts) offset s v vs (w, ws) e ret =
    scan_media ts (offset + tree_size (decode_time d)) s v vs ws e ret

-- On the boxes of a well-formed structure with a media header, getTimeScale succeeds with the time
-- scale of the first media header in the order of the file, at whatever depth, whatever movie headers
-- stand before it.
pub get_time_scale-media :
    (ts : Trees) (s v : ℕ) (vs : List ℕ)
    → AllWellFormed ts
    → media_scales_all ts ≡ v ∷ vs
    → get_time_scale (boxes_of 0 ts) s
      ≡ found (record { ret = true; time_scale = v; found_mdhd = true })
unfolding get_time_scale
get_time_scale-media ts s v vs w e = scan_media ts 0 s v vs w e false

-- Boxes without any header leave the variables as they are; a container resets `ret`.
scan_unreported :
    (ts : Trees) (offset s : ℕ)
    → AllWellFormed ts
    → media_scales_all ts ≡ []
    → movie_scales_all ts ≡ []
    → scan_boxes (boxes_of offset ts) (record { ret = false; time_scale = s; found_mdhd = false })
      ≡ found (record { ret = false; time_scale = s; found_mdhd = false })
unfolding scan_boxes box_of media_scales movie_scales WellFormed is_type
scan_unreported none_left offset s w e m = refl
scan_unreported (before (leaf type payload) ts) offset s (w, ws) e m =
    rw (w.1.2, w.1.3) (scan_unreported ts (offset + tree_size (leaf type payload)) s ws e m)
scan_unreported (before (node type trees) ts) offset s (w, ws) e m =
    let ne = container_type-ne type w.1 in
    let inner =
      scan_unreported trees 8 s w.3 (append-nil_left _ (media_scales_all ts) e)
        (append-nil_left _ (movie_scales_all ts) m) in
    let next =
      scan_unreported ts (offset + tree_size (node type trees)) s ws
        (append-nil_right (media_scales_all trees) _ e)
        (append-nil_right (movie_scales_all trees) _ m) in
    rw (ne.1, ne.2, inner) next
scan_unreported (before (movie_header h) ts) offset s (w, ws) e m = absurd (cc)
scan_unreported (before (media_header h) ts) offset s (w, ws) e m = absurd (cc)
scan_unreported (before (decode_time d) ts) offset s (w, ws) e m =
    scan_unreported ts (offset + tree_size (decode_time d)) s ws e m

-- A movie with a movie header, then one track without any header in it: getTimeScale leaves the movie's
-- time scale in its argument, and returns false, since the track's result replaces the one of the movie
-- header.
get_time_scale_lost :
    (h : Header) (track : Trees) (s : ℕ)
    → AllWellFormed track
    → media_scales_all track ≡ []
    → movie_scales_all track ≡ []
    → get_time_scale
        (boxes_of 0 (
          before
            (node moov (before (movie_header h) (before (node trak track) none_left)))
            none_left))
        s
      ≡ found (record { ret = false; time_scale = h.time_scale; found_mdhd = false })
unfolding get_time_scale scan_boxes box_of is_type
get_time_scale_lost h track s w e m = rw (scan_unreported track 8 h.time_scale w e m) refl
