-- ===== src/Updater/Releases.antt =====
-- Which release is newer, and which variant of it to install (src/update.rs).
use studio_worker.Base.{
  ℕ, zero, suc, ◌+◌, String, Bool, true, false, not, ◌&&◌, ◌||◌, Option, none, some, List, [], ◌∷◌,
  same, push_str, any, if◌then◌else◌,
}
use Prim.Native.String.{slice, len}
use text.Mathlib.Text.{starts_with}

pub record Asset : Type 0 where
  pub name : String
  pub browser_download_url : String

pub record GithubRelease : Type 0 where
  pub tag_name : String
  pub draft : Bool
  pub prerelease : Bool
  pub assets : List Asset

pub data CheckOutcome (V : Type 0) : Type 0 where
  up_to_date : V → CheckOutcome V
  newer_available : V → V → CheckOutcome V

-- `strip_prefix('v')`, or the tag itself.
unfoldable pub without_v : String → String
without_v tag = if starts_with tag "v" then slice tag 1 (len tag) else tag

-- What follows the last `-v` that begins before the position `k`, or the tag itself.
unfoldable pub after_last_v : ℕ → String → String
after_last_v zero tag = tag
after_last_v (suc k) tag =
    let rest = after_last_v k tag in
    if starts_with (slice tag k (len tag)) "-v" then slice tag (k + 2) (len tag) else rest

-- `Version::parse`, `>` and `==` of the semver crate.
pub record Semver (V : Type 0) : Type 0 where
  pub parse : String → Option V
  pub greater : V → V → Bool
  pub equal : V → V → Bool

module _ {V : Type 0} (semver : Semver V) where
  first_parsed : List String → Option V
  first_parsed [] = none
  first_parsed (c ∷ cs) = elim (semver.parse c) [ none ↦ first_parsed cs | some v ↦ some v ]

  unfoldable pub parse_tag : String → Option V
  unfolding first_parsed without_v after_last_v
  parse_tag tag = first_parsed (tag ∷ without_v tag ∷ after_last_v (len tag) tag ∷ [])

  cons_parsed : Option V → List V → List V
  cons_parsed none vs = vs
  cons_parsed (some v) vs = v ∷ vs

  -- The versions that `decide` compares: of the releases that are no drafts, and no prereleases unless
  -- those are wanted, whose tag parses.
  unfoldable pub candidates : Bool → List GithubRelease → List V
  unfolding cons_parsed parse_tag
  candidates prerelease_ok [] = []
  candidates prerelease_ok (r ∷ rs) =
      let rest = candidates prerelease_ok rs in
      if not r.draft && (prerelease_ok || not r.prerelease)
      then cons_parsed (parse_tag r.tag_name) rest
      else rest

  -- `Iterator::max` keeps the later of equal ones.
  unfoldable pub greatest : V → List V → V
  greatest best [] = best
  greatest best (v ∷ vs) = greatest (if semver.greater best v then best else v) vs

  unfoldable pub latest : List V → Option V
  unfolding greatest
  latest [] = none
  latest (v ∷ vs) = some (greatest v vs)

  unfoldable pub judge_latest : V → Option V → CheckOutcome V
  judge_latest current none = up_to_date current
  judge_latest current (some v) =
      if semver.greater v current then newer_available current v else up_to_date current

  unfoldable pub decide : List GithubRelease → V → Bool → CheckOutcome V
  unfolding candidates latest judge_latest
  decide releases current prerelease_ok =
      judge_latest current (latest (candidates prerelease_ok releases))

  -- The release of a version.
  unfoldable pub release_of : V → List GithubRelease → Option GithubRelease
  unfolding parse_tag
  release_of v [] = none
  release_of v (r ∷ rs) =
      let rest = release_of v rs in
      elim (parse_tag r.tag_name) [
        | none ↦ rest
        | some w ↦ if semver.equal w v then some r else rest
      ]

unfoldable pub url_of : String → List Asset → Option String
url_of name [] = none
url_of name (a ∷ others) =
    let rest = url_of name others in if same a.name name then some a.browser_download_url else rest

unfoldable pub installer_asset_name : Bool → String
installer_asset_name windows =
    if windows then "studio-worker-installer.ps1" else "studio-worker-installer.sh"

unfoldable pub resolve_installer_url : Bool → GithubRelease → Option String
unfolding url_of installer_asset_name
resolve_installer_url windows release = url_of (installer_asset_name windows) release.assets

pub data Variant : Type 0 where
  cpu cuda : Variant

pub data VariantReason : Type 0 where
  keep_cuda cuda_fallback driver_found no_driver no_cuda_build : VariantReason

pub record VariantChoice : Type 0 where
  pub variant : Variant
  pub reason : VariantReason

unfoldable pub cuda_archive_name : String → String
cuda_archive_name target = push_str "studio-worker-" (push_str target "-cuda.tar.xz")

unfoldable pub cuda_shipped : GithubRelease → Option String → Bool
unfolding cuda_archive_name
cuda_shipped release none = false
cuda_shipped release (some target) =
    any (λ a. same a.name (cuda_archive_name target)) release.assets

-- The match on the running variant, whether CUDA is shipped, and whether there is a driver.
unfoldable pub choice_of : Variant → Bool → Bool → VariantChoice
choice_of cuda true nvidia_driver = record { variant = cuda; reason = keep_cuda }
choice_of cuda false nvidia_driver = record { variant = cpu; reason = cuda_fallback }
choice_of cpu true true = record { variant = cuda; reason = driver_found }
choice_of cpu true false = record { variant = cpu; reason = no_driver }
choice_of cpu false nvidia_driver = record { variant = cpu; reason = no_cuda_build }

unfoldable pub choose_variant : GithubRelease → Variant → Option String → Bool → VariantChoice
unfolding cuda_shipped choice_of
choose_variant release running target nvidia_driver =
    choice_of running (cuda_shipped release target) nvidia_driver
