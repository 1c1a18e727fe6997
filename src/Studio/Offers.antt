-- ===== src/Studio/Offers.antt =====
-- `handle_offer` (src/ws/session.rs): every offer of the studio is turned down or accepted.
use studio_worker.Base.{Bool, true, Option, none, some, if◌then◌else◌}
use studio_worker.Admission.{
  Measure, MemoryProbe, MemoryNeed, Verdict, admitted, refused, need_of, admit_transient,
}
use studio_worker.Presence.{holds_back}
use studio_worker.Catalog.{CatalogModel, Catalog, sync_studio_model}
use studio_worker.JobGate.{JobGate, Reserved, reservation, busy_already, try_reserve}
use studio_worker.Studio.Frames.{RejectCode, busy, paused, insufficient_memory, JobOfferClaim, Job}
use studio_worker.Studio.Worker.{Worker, rejecting, accepting, spawn}

unfoldable pub job_of : {G P : Type 0} → JobOfferClaim G P → Job
job_of claim = record {
  job_id = claim.job_id;
  kind = claim.kind;
  model = claim.model;
  prompt = claim.prompt;
  preview = claim.preview;
}

module _ {G P : Type 0} where
  unfoldable pub turn_down : JobOfferClaim G P → RejectCode → Worker G P → Worker G P
  unfolding spawn
  turn_down claim code w = spawn (rejecting claim.job_id code) w

-- `eq` is the derived `==` of `CatalogModel`; `reading` is what the model host's probe and its loaded
-- models say, `none` without a host.
module _ {G P : Type 0} (m : Measure G) (eq : CatalogModel G P → CatalogModel G P → Bool) where
  unfoldable pub admit_offer : Option (MemoryProbe G × G) → MemoryNeed G → Verdict G
  unfolding admit_transient
  admit_offer none need = admitted
  admit_offer (some (probe, loaded)) need = admit_transient m probe loaded need

  -- `runtime::sync_studio_model`; saving the catalogue can only fail into the log.
  unfoldable pub mirrored : JobOfferClaim G P → Catalog G P → Catalog G P
  unfolding sync_studio_model
  mirrored claim c =
      (sync_studio_model eq
        (record {
          id = claim.model;
          kind = claim.kind;
          vram_gb_estimate = m.gib 0;
          enabled = true;
          origin = "studio";
          exclusive_group = none;
          payload = claim.payload;
        })
        c).0

  unfoldable pub reserved : JobOfferClaim G P → JobGate × Reserved → Worker G P → Worker G P
  unfolding turn_down mirrored spawn job_of
  reserved claim (g, busy_already) w = turn_down claim busy w
  reserved claim (g, reservation) w =
      spawn (accepting (job_of claim)) (record w { gate = g; catalog = mirrored claim w.catalog })

  unfoldable pub if_room : JobOfferClaim G P → Verdict G → Worker G P → Worker G P
  unfolding turn_down reserved try_reserve
  if_room claim (refused r) w = turn_down claim insufficient_memory w
  if_room claim admitted w = reserved claim (try_reserve w.gate) w

  unfoldable pub handle_offer :
      Option (MemoryProbe G × G) → JobOfferClaim G P → Worker G P → Worker G P
  unfolding turn_down holds_back need_of admit_offer if_room
  handle_offer reading claim w =
      if w.paused
      then turn_down claim paused w
      else if w.update_pending
      then turn_down claim busy w
      else if holds_back w.only_when_idle w.user_presence
      then turn_down claim paused w
      else if_room claim (admit_offer reading (need_of m claim.vram_gb_estimate claim.weights)) w
