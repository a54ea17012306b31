-- ===== src/Version/Newest.antt =====
-- What `Allocate` allocates: a version above the tags, or that of an earlier run.
use gitops_dashboard.Prelude.{
  ◌≡◌, refl, subst, true, false, List, [], ◌∷◌, ◌++◌, inl, inr, arith, Bool-cases, Option-cases,
  Elem, none, some,
}
use gitops_dashboard.Prelude.Text.{Text, text_eq_refl}
use gitops_dashboard.Version.Parse.{Version, parse_version, after_byte}
use gitops_dashboard.Version.Allocate.{
  Tag, Bump, Scan, less, incrementable, next_version, shape_matches, source_tag_matches_bump,
  scan_tag, scan_tags, is_supported, zero_version, allocation_of, allocate_version,
}

less_trans : (u v w : Version) → less u v ≡ true → less v w ≡ true → less u w ≡ true
unfolding less
less_trans u v w h k = ground arith

not_less_trans : (u v w : Version) → less v u ≡ false → less w v ≡ false → less w u ≡ false
unfolding less
not_less_trans u v w h k = ground arith

not_less_refl : (v : Version) → less v v ≡ false
unfolding less
not_less_refl v = ground arith

asym : (u v : Version) → less u v ≡ true → less v u ≡ false
unfolding less
asym u v h = ground arith

-- What is at most the maximum is below the next version.
next_version-above :
    (v max : Version) (bump : Bump)
    → is_supported bump ≡ true
    → less max v ≡ false
    → less v (next_version max bump) ≡ true
unfolding less next_version
next_version-above v max Bump.major s h = ground arith
next_version-above v max Bump.minor s h = ground arith
next_version-above v max Bump.patch s h = ground arith
next_version-above v max Bump.unsupported s h = cc

next_version-shape :
    (max : Version) (bump : Bump)
    → is_supported bump ≡ true
    → shape_matches (next_version max bump) bump ≡ true
unfolding shape_matches next_version
next_version-shape max Bump.major s = ground arith
next_version-shape max Bump.minor s = ground arith
next_version-shape max Bump.patch s = ground arith
next_version-shape max Bump.unsupported s = cc

-- A turn of the loop never lowers the maximum, and raises it to an incrementable tag.
scan_tag-max :
    (source : Text) (bump : Bump) (tag : Tag) (s : Scan)
    → less (scan_tag source bump tag s).0 s.0 ≡ false
unfolding scan_tag
scan_tag-max source bump tag (m, reuse) = elim (Option-cases (parse_version tag.name)) [
  | inl junk ↦ rw (junk, scan_tag) (not_less_refl m)
  | inr (v, parsed) ↦
      rw (parsed, scan_tag)
        (elim (Bool-cases (incrementable v bump)) [
          | inl counts ↦ rw counts (elim (Bool-cases (less m v)) [
            | inl up ↦ rw up (asym m v up)
            | inr down ↦ rw down (not_less_refl m)
          ])
          | inr skipped ↦ rw skipped (not_less_refl m)
        ])
]

scan_tag-covers :
    (source : Text) (bump : Bump) (tag : Tag) (s : Scan) (v : Version)
    → parse_version tag.name ≡ some v
    → incrementable v bump ≡ true
    → less (scan_tag source bump tag s).0 v ≡ false
unfolding scan_tag
scan_tag-covers source bump tag (m, reuse) v parsed counts =
    rw (parsed, scan_tag)
      (rw counts (elim (Bool-cases (less m v)) [
        | inl up ↦ rw up (not_less_refl v)
        | inr down ↦ rw (down, down) refl
      ]))

scan_tags-max :
    (source : Text) (bump : Bump) (tags : List Tag) (s : Scan)
    → less (scan_tags source bump tags s).0 s.0 ≡ false
unfolding scan_tags
scan_tags-max source bump [] s = not_less_refl s.0
scan_tags-max source bump (tag ∷ tags) s =
    not_less_trans s.0 (scan_tag source bump tag s).0 _ (scan_tag-max source bump tag s)
      (scan_tags-max source bump tags (scan_tag source bump tag s))

scan_tags-covers :
    (source : Text) (bump : Bump) (tags : List Tag) (s : Scan) (tag : Tag) (v : Version)
    → Elem tag tags
    → parse_version tag.name ≡ some v
    → incrementable v bump ≡ true
    → less (scan_tags source bump tags s).0 v ≡ false
unfolding scan_tags
scan_tags-covers source bump [] s tag v m parsed counts = elim m [ ]
scan_tags-covers source bump (t ∷ tags) s tag v (inl same) parsed counts =
    not_less_trans v (scan_tag source bump t s).0 _
      (scan_tag-covers source bump t s v (subst (λ x. parse_version x.name ≡ some v) same parsed)
        counts)
      (scan_tags-max source bump tags (scan_tag source bump t s))
scan_tags-covers source bump (t ∷ tags) s tag v (inr m) parsed counts =
    scan_tags-covers source bump tags (scan_tag source bump t s) tag v m parsed counts

-- Where Allocate makes a new version, the version is above every listed tag that parses and is
-- incrementable.
pub allocate_version-above :
    (tags : List Tag) (source : Text) (bump : Bump) (v w : Version) (tag : Tag)
    → allocate_version tags source bump ≡ some (v, false)
    → Elem tag tags
    → parse_version tag.name ≡ some w
    → incrementable w bump ≡ true
    → less w v ≡ true
unfolding allocate_version
allocate_version-above tags source bump v w tag made m parsed counts =
    elim (Bool-cases (is_supported bump)) [
      | inr bad ↦ absurd (cc (rw bad at made))
      | inl supported ↦
          chosen (scan_tags source bump tags (zero_version, none)) (rw supported at made) supported
            (scan_tags-covers source bump tags (zero_version, none) tag w m parsed counts)
    ]
  where
    chosen :
        (s : Scan)
        → some (allocation_of bump s) ≡ some (v, false)
        → is_supported bump ≡ true
        → less s.0 w ≡ false
        → less w v ≡ true
    chosen (max, some old) e supported below = absurd (cc e)
    chosen (max, none) e supported below =
        let same : next_version max bump ≡ v = cc e in
        subst (λ x. less w x ≡ true) same (next_version-above w max bump supported below)

scan_tags-append :
    (source : Text) (bump : Bump) (tags more : List Tag) (s : Scan)
    → scan_tags source bump (tags ++ more) s
      ≡ scan_tags source bump more (scan_tags source bump tags s)
unfolding scan_tags
scan_tags-append source bump [] more s = refl
scan_tags-append source bump (tag ∷ tags) more s =
    scan_tags-append source bump tags more (scan_tag source bump tag s)

-- After Allocate made a new version, a run over the same tags and a last one that parses to that
-- version at the same source reuses the version.
pub allocate_version-rerun :
    (tags : List Tag) (source : Text) (bump : Bump) (v : Version) (name : Text)
    → allocate_version tags source bump ≡ some (v, false)
    → parse_version name ≡ some v
    → allocate_version (tags ++ (record { name = name; commit = source } ∷ [])) source bump
      ≡ some (v, true)
unfolding allocate_version scan_tags parse_version after_byte
allocate_version-rerun tags source bump v name made parsed = elim (Bool-cases (is_supported bump)) [
  | inr bad ↦ absurd (cc (rw bad at made))
  | inl supported ↦
      rw (supported, scan_tags-append source bump tags (tag ∷ []) (zero_version, none))
        (chosen (scan_tags source bump tags (zero_version, none)) (rw supported at made) supported)
]
  where
    tag : Tag
    tag = record { name = name; commit = source }

    reused :
        (max : Version)
        → shape_matches v bump ≡ true
        → (scan_tag source bump tag (max, none)).1 ≡ some v
    reused max fits =
        unfold scan_tag source_tag_matches_bump in
        rw (parsed, text_eq_refl source) (rw (parsed, source_tag_matches_bump) (rw fits refl))

    last : (s : Scan) → s.1 ≡ some v → some (allocation_of bump s) ≡ some (v, true)
    last (max, none) e = absurd (cc e)
    last (max, some w) e = cc e

    chosen :
        (s : Scan)
        → some (allocation_of bump s) ≡ some (v, false)
        → is_supported bump ≡ true
        → some (allocation_of bump (scan_tag source bump tag s)) ≡ some (v, true)
    chosen (max, some old) e supported = absurd (cc e)
    chosen (max, none) e supported =
        let same : next_version max bump ≡ v = cc e in
        let fits : shape_matches v bump ≡ true =
          subst (λ x. shape_matches x bump ≡ true) same (next_version-shape max bump supported) in
        last (scan_tag source bump tag (max, none)) (reused max fits)
