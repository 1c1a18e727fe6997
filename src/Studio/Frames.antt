-- ===== src/Studio/Frames.antt =====
-- The frames of src/ws/types.rs that carry jobs, and the results of a job (src/types.rs).
use studio_worker.Base.{String, Bool, Option, none, some}
use studio_worker.Admission.{Weights}
use studio_worker.Catalog.{TaskKind}

pub data RejectCode : Type 0 where
  busy paused insufficient_memory : RejectCode

-- `WorkerInbound`, the frames about a job: accept, reject (with its class), a JSON result, a failure
-- (with its error, and whether to retry).
pub data WorkerInbound : Type 0 where
  accept : String → WorkerInbound
  reject : String → RejectCode → WorkerInbound
  complete_json : String → String → WorkerInbound
  fail : String → String → Bool → WorkerInbound

-- `JobOfferClaim`, and what its model source means to admission and to the catalogue.
pub record JobOfferClaim (G P : Type 0) : Type 0 where
  pub job_id : String
  pub model : String
  pub vram_gb_estimate : G
  pub weights : Weights
  pub kind : TaskKind
  -- `prompt_for` of its task, and `truncate_prompt` of that.
  pub prompt : String
  pub preview : String
  pub payload : P

-- What a job's task keeps: the job as it is listed (`CurrentJob`, with the preview), and its prompt.
pub record Job : Type 0 where
  pub job_id : String
  pub kind : TaskKind
  pub model : String
  pub prompt : String
  pub preview : String

pub data JobOutcome : Type 0 where
  completed : JobOutcome
  failed : String → JobOutcome

pub record RecentJob : Type 0 where
  pub job_id : String
  pub kind : TaskKind
  pub model : String
  pub prompt : String
  pub outcome : JobOutcome

-- `TaskResult`: bytes with their extension, or JSON; a conversion has a report too.
pub data TaskResult : Type 0 where
  image audio_tts video mesh : String → String → TaskResult
  model_convert : String → String → String → TaskResult
  llm audio_stt : String → TaskResult

-- `JobOutput`.
pub record JobOutput : Type 0 where
  pub ext : String
  pub prompt : String
  pub bytes : String
  pub generation_meta : Option String

pub data Delivery : Type 0 where
  upload : JobOutput → Delivery
  json : String → Delivery

unfoldable pub output : String → String → String → JobOutput
output ext prompt bytes = record {
  ext = ext;
  prompt = prompt;
  bytes = bytes;
  generation_meta = none;
}

unfoldable pub delivery_of : TaskResult → String → Delivery
unfolding output
delivery_of (image bytes ext) prompt = upload (output ext prompt bytes)
delivery_of (audio_tts bytes ext) prompt = upload (output ext prompt bytes)
delivery_of (video bytes ext) prompt = upload (output ext prompt bytes)
delivery_of (mesh bytes ext) prompt = upload (output ext prompt bytes)
delivery_of (model_convert bytes ext report) prompt =
    upload (record (output ext prompt bytes) { generation_meta = some report })
delivery_of (llm text) prompt = json text
delivery_of (audio_stt text) prompt = json text
