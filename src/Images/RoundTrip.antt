-- ===== src/Images/RoundTrip.antt =====
-- A printed image reference is parsed back.
use gitops_dashboard.Prelude.{
  ℕ, ◌≡◌, refl, ◌≢◌, true, false, [], ◌∷◌, ◌++◌, arith, All-append, ap, subst,
}
use gitops_dashboard.Prelude.Text.{Text, codes, is_empty, has_prefix, is_space}
use gitops_dashboard.Prelude.Strings.{
  has_byte, Without, last_index-after, last_index-Without, take-before, drop-suc-length-append,
  has_byte-append, split-append, join-split, last_index-append, last_index-le, le-last_index,
  append_nil, split_cons, Without-of_has_byte, NoSpace, trim_space-NoSpace,
}
use gitops_dashboard.Images.Parse.{
  strip_schemes, strip_image_scheme, is_bare_digest, is_registry_component, split_digest, split_tag,
  split_registry, parse_name, parse_image_reference,
}

-- A part after its separator, or nothing where the part is empty.
unfoldable suffix : ℕ → Text → Text
suffix b [] = []
suffix b (c ∷ s) = b ∷ c ∷ s

-- `registry/repository[:tag][@digest]`.
unfoldable pub reference_text : Text → Text → Text → Text → Text
unfolding suffix
reference_text registry repository tag digest =
    ((registry ++ (b'/' ∷ repository)) ++ suffix b':' tag) ++ suffix b'@' digest

-- A registry: it has no white space, no slash and no at sign, and has the form of a registry.
unfoldable pub IsRegistry : Text → Type 0
IsRegistry r = NoSpace r × Without b'/' r × Without b'@' r × (is_registry_component r ≡ true)

-- A repository: it is not empty, has no white space, colon or at sign and does not start with `/`.
unfoldable pub IsRepository : Text → Type 0
IsRepository p =
    NoSpace p
    × Without b':' p
    × Without b'@' p
    × (is_empty p ≡ false)
    × (has_prefix (b'/' ∷ []) p ≡ false)

unfoldable pub IsTag : Text → Type 0
IsTag t = NoSpace t × Without b'/' t × Without b':' t × Without b'@' t

unfoldable pub IsDigest : Text → Type 0
IsDigest d = NoSpace d × Without b'@' d

split_digest-suffix :
    (name digest : Text)
    → NoSpace name
    → NoSpace digest
    → Without b'@' name
    → Without b'@' digest
    → split_digest (name ++ suffix b'@' digest) ≡ (digest, name)
unfolding split_digest suffix
split_digest-suffix name [] hn hd an ad =
    rw (append_nil name) (rw (last_index-Without b'@' name an) refl)
split_digest-suffix name (c ∷ digest) hn hd an ad =
    rw
      (
        last_index-after b'@' name (c ∷ digest) ad,
        suffix,
        drop-suc-length-append b'@' name (c ∷ digest),
        take-before name (b'@' ∷ c ∷ digest),
        trim_space-NoSpace name hn,
        trim_space-NoSpace (c ∷ digest) hd,
      )
      (ground arith)

split_tag-suffix :
    (registry repository tag : Text)
    → NoSpace (registry ++ (b'/' ∷ repository))
    → NoSpace tag
    → Without b':' repository
    → Without b'/' tag
    → Without b':' tag
    → split_tag ((registry ++ (b'/' ∷ repository)) ++ suffix b':' tag)
      ≡ (tag, registry ++ (b'/' ∷ repository))
unfolding split_tag suffix
split_tag-suffix registry repository [] hn ht cr st ct =
    let name = registry ++ (b'/' ∷ repository) in
    let colon = last_index-append b':' registry (b'/' ∷ repository) (λ e. omega arith, cr) in
    let low = last_index-le b':' registry in
    let high = le-last_index b'/' registry repository in rw (append_nil name, colon) (ground arith)
split_tag-suffix registry repository (c ∷ tag) hn ht cr st ct =
    let name = registry ++ (b'/' ∷ repository) in
    let slash = last_index-append b'/' name (b':' ∷ c ∷ tag) (λ e. omega arith, st) in
    let low = last_index-le b'/' name in
    rw
      (
        slash,
        last_index-after b':' name (c ∷ tag) ct,
        suffix,
        drop-suc-length-append b':' name (c ∷ tag),
        take-before name (b':' ∷ c ∷ tag),
        trim_space-NoSpace name hn,
        trim_space-NoSpace (c ∷ tag) ht,
      )
      (ground arith)

split_registry-append :
    (registry repository : Text)
    → Without b'/' registry
    → is_registry_component registry ≡ true
    → split_registry (registry ++ (b'/' ∷ repository)) ≡ (registry, repository)
unfolding split_registry
split_registry-append registry repository h k =
    let (part, parts, cons) = split_cons b'/' repository in
    let joined = join-split b'/' repository in
    rw (split-append b'/' registry repository h, split_registry, cons, k)
      (ap (λ p. (registry, p)) (rw cons at joined))

no_scheme :
    (a r p : Text)
    → Without b'/' a
    → Without b'/' r
    → has_prefix (b'/' ∷ []) p ≡ false
    → has_prefix (a ++ (b'/' ∷ b'/' ∷ [])) (r ++ (b'/' ∷ p)) ≡ false
unfolding has_prefix
no_scheme [] [] p ha hr hp = ground (arith, hp)
no_scheme [] (x ∷ r) p ha hr hp = let apart : x ≢ b'/' = hr.0 in ground arith
no_scheme (y ∷ a) [] p ha hr hp = let apart : y ≢ b'/' = ha.0 in ground arith
no_scheme (y ∷ a) (x ∷ r) p ha hr hp = ground (arith, no_scheme a r p ha.1 hr.1 hp)

append_assoc_slash :
    (r p u v : Text) → ((r ++ (b'/' ∷ p)) ++ u) ++ v ≡ r ++ (b'/' ∷ ((p ++ u) ++ v))
append_assoc_slash [] p u v = refl
append_assoc_slash (c ∷ r) p u v = rw (append_assoc_slash r p u v) refl

no_slash_first :
    (p u v : Text)
    → is_empty p ≡ false
    → has_prefix (b'/' ∷ []) p ≡ false
    → has_prefix (b'/' ∷ []) ((p ++ u) ++ v) ≡ false
unfolding has_prefix
no_slash_first [] u v ne h = cc
no_slash_first (c ∷ p) u v ne h = h

NoSpace-name : (r p : Text) → NoSpace r → NoSpace p → NoSpace (r ++ (b'/' ∷ p))
unfolding is_space
NoSpace-name r p hr hp = All-append (λ c. is_space c ≡ false) r (b'/' ∷ p) hr (refl, hp)

NoSpace-with_suffix :
    (b : ℕ) (name s : Text)
    → is_space b ≡ false
    → NoSpace name
    → NoSpace s
    → NoSpace (name ++ suffix b s)
unfolding suffix
NoSpace-with_suffix b name [] hb hn h = All-append (λ c. is_space c ≡ false) name [] hn tt
NoSpace-with_suffix b name (c ∷ s) hb hn h =
    All-append (λ c. is_space c ≡ false) name (b ∷ c ∷ s) hn (hb, h)

Without-tagged :
    (r p t : Text)
    → Without b'@' r
    → Without b'@' p
    → Without b'@' t
    → Without b'@' ((r ++ (b'/' ∷ p)) ++ suffix b':' t)
unfolding suffix
Without-tagged r p [] hr hp ht =
    All-append (λ c. c ≢ b'@') (r ++ (b'/' ∷ p)) []
      (All-append (λ c. c ≢ b'@') r (b'/' ∷ p) hr (λ e. omega arith, hp)) tt
Without-tagged r p (c ∷ t) hr hp ht =
    All-append (λ c. c ≢ b'@') (r ++ (b'/' ∷ p)) (b':' ∷ c ∷ t)
      (All-append (λ c. c ≢ b'@') r (b'/' ∷ p) hr (λ e. omega arith, hp)) (λ e. omega arith, ht)

not_empty-append : (r p : Text) → is_empty (r ++ (b'/' ∷ p)) ≡ false
not_empty-append [] p = refl
not_empty-append (c ∷ r) p = refl

is_bare_digest-slash :
    (r p : Text) → NoSpace (r ++ (b'/' ∷ p)) → is_bare_digest (r ++ (b'/' ∷ p)) ≡ false
unfolding is_bare_digest
is_bare_digest-slash r p h =
    rw (trim_space-NoSpace (r ++ (b'/' ∷ p)) h, has_byte-append b'/' r p) refl

strip_image_scheme-slash :
    (r p : Text)
    → NoSpace (r ++ (b'/' ∷ p))
    → Without b'/' r
    → has_prefix (b'/' ∷ []) p ≡ false
    → strip_image_scheme (r ++ (b'/' ∷ p)) ≡ r ++ (b'/' ∷ p)
unfolding strip_image_scheme strip_schemes
strip_image_scheme-slash r p h hr hp =
    rw
      (
        trim_space-NoSpace (r ++ (b'/' ∷ p)) h,
        no_scheme (codes "docker-pullable:") r p
            (Without-of_has_byte b'/' (codes "docker-pullable:") (unfold has_byte in refl)) hr hp,
        no_scheme (codes "docker:") r p
            (Without-of_has_byte b'/' (codes "docker:") (unfold has_byte in refl)) hr hp,
        no_scheme (codes "containerd:") r p
            (Without-of_has_byte b'/' (codes "containerd:") (unfold has_byte in refl)) hr hp,
      )
      refl

-- ParseImageReference gives back the parts of a printed reference
-- registry/repository[:tag][@digest], where no part has white space, the registry looks like one
-- and has no slash or at sign, the repository is not empty, has no colon or at sign and does not
-- start with a slash, the tag has no slash, colon or at sign, and the digest has no at sign; the
-- tag and the digest may be empty.
pub parse_image_reference-reference_text :
    (registry repository tag digest : Text)
    → IsRegistry registry
    → IsRepository repository
    → IsTag tag
    → IsDigest digest
    → parse_image_reference (reference_text registry repository tag digest) ≡ record {
      original = reference_text registry repository tag digest;
      registry = registry;
      repository = repository;
      tag = tag;
      digest = digest;
    }
unfolding parse_image_reference reference_text IsRegistry IsRepository IsTag IsDigest
parse_image_reference-reference_text r p t d (spr, slr, atr, form) (spp, cop, atp, ne, first)
      (spt, slt, cot, att) (spd, atd) =
    let name = r ++ (b'/' ∷ p) in
    let rest = (p ++ suffix b':' t) ++ suffix b'@' d in
    let space_name = NoSpace-name r p spr spp in
    let space_tagged = NoSpace-with_suffix b':' name t (unfold is_space in refl) space_name spt in
    let space_text =
      NoSpace-with_suffix b'@' (name ++ suffix b':' t) d (unfold is_space in refl) space_tagged
        spd in
    let at_tagged = Without-tagged r p t atr atp att in
    let shape = append_assoc_slash r p (suffix b':' t) (suffix b'@' d) in
    let space_shape : NoSpace (r ++ (b'/' ∷ rest)) = subst NoSpace shape space_text in
    rw
      (
        trim_space-NoSpace ((name ++ suffix b':' t) ++ suffix b'@' d) space_text,
        shape,
        strip_image_scheme-slash r rest space_shape slr
            (no_slash_first p (suffix b':' t) (suffix b'@' d) ne first),
        is_bare_digest-slash r rest space_shape,
        not_empty-append r rest,
        ← shape,
        parse_name,
        split_digest-suffix (name ++ suffix b':' t) d space_tagged spd at_tagged atd,
        split_tag-suffix r p t space_name spt cop slt cot,
        split_registry-append r p slr form,
        not_empty-append r p,
      )
      refl
