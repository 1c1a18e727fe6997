-- ===== src/Stt/Session.antt =====
-- src/stt_stream/session.rs: one streaming session over any streaming transcriber.
use studio_worker.Base.{
  ℕ, zero, suc, ◌+◌, ◌-◌, ◌*◌, ◌/◌, max, String, Bool, true, false, not, ◌&&◌, Option, none, some,
  List, [], ◌∷◌, ◌++◌, length, take, drop, replicate, leb, same, push_str, if◌then◌else◌,
}
use studio_worker.Stt.Vad.{Signal, Vad, with_silence_ms, feed, sample_rate, vad_silence_ms}
use studio_worker.Stt.Decoding.{decode}

abbrev pub flush_silence_ms : ℕ
flush_silence_ms = 1500

abbrev pub client_silence_ceiling_ms : ℕ
client_silence_ceiling_ms = 30000

pub data Endpointing : Type 0 where
  server client : Endpointing

unfoldable pub parse : Option String → Option Endpointing
parse none = some server
parse (some value) =
    if same value "server" then some server else if same value "client" then some client else none

-- `StreamingTranscriber`: a step tells the text it adds, or the error (`none` for no error).
pub record Transcriber (T A : Type 0) : Type 0 where
  pub chunk_samples : T → ℕ
  pub step : T → List A → T × String × Option String
  pub reset : T → T

pub data ClientFrame : Type 0 where
  audio : List ℕ → ClientFrame
  end cancel : ClientFrame

-- `text.trim()` is an argument.
unfoldable pub from_text : (String → String) → String → Option ClientFrame
from_text trim text =
    if same (trim text) "end"
    then some end
    else if same (trim text) "cancel"
    then some cancel
    else none

pub data ServerFrame : Type 0 where
  partial final error : String → ServerFrame

pub data Next : Type 0 where
  continue close : Next

pub record StreamSession (T A : Type 0) : Type 0 where
  pub transcriber : T
  pub pending : List A
  pub odd_byte : Option ℕ
  pub raw : String
  pub sent : String
  pub vad : Vad A

-- The session with the frames to send, and the error that ended the draining.
pub record Drained (T A : Type 0) : Type 0 where
  pub session : StreamSession T A
  pub out : List ServerFrame
  pub error : Option String

unfoldable pub vad_for : {A : Type 0} → Endpointing → Vad A
unfolding with_silence_ms
vad_for server = with_silence_ms vad_silence_ms
vad_for client = with_silence_ms client_silence_ceiling_ms

module _ {T A : Type 0} (t : Transcriber T A) where
  unfoldable pub with_endpointing : T → Endpointing → StreamSession T A
  unfolding vad_for
  with_endpointing transcriber endpointing = record {
    transcriber = t.reset transcriber;
    pending = [];
    odd_byte = none;
    raw = "";
    sent = "";
    vad = vad_for endpointing;
  }

  unfoldable pub chunk_of : StreamSession T A → ℕ
  chunk_of s = max (t.chunk_samples s.transcriber) 1

-- `failure`, of the error's text.
unfoldable pub failure : String → ServerFrame
failure err = error (push_str "transcription failed: " err)

-- A step that failed ends the loop with its error.
module _ {T A : Type 0} where
  unfoldable pub unless_failed :
      Option String → StreamSession T A → List ServerFrame → Drained T A → Drained T A
  unless_failed none s out rest = rest
  unless_failed (some err) s out rest = record { session = s; out = out; error = some err }

  -- The end of one round of the loop: a partial when the transcript changed.
  unfoldable pub noted :
      (String → String)
      → Bool
      → StreamSession T A
      → List ServerFrame
      → StreamSession T A × List ServerFrame
  noted normalise partials s out =
      let text = normalise s.raw in
      if partials && not (same text s.sent)
      then (record s { sent = text }, out ++ partial text ∷ [])
      else (s, out)

-- `normalise` (std's `replace`, `split_whitespace` and `join`) is an argument.
module _ {T A : Type 0} (t : Transcriber T A) (normalise : String → String) where
  -- The loop while a whole chunk is pending, for at most `fuel` rounds.
  unfoldable pub rounds : ℕ → ℕ → Bool → StreamSession T A → List ServerFrame → Drained T A
  unfolding unless_failed noted
  rounds zero chunk partials s out = record { session = s; out = out; error = none }
  rounds (suc fuel) chunk partials s out =
      let answer = t.step s.transcriber (take chunk s.pending) in
      let fed = record s { transcriber = answer.0; pending = drop chunk s.pending } in
      let told = noted normalise partials (record fed { raw = push_str s.raw answer.1 }) out in
      let rest = rounds fuel chunk partials told.0 told.1 in
      if leb chunk (length s.pending)
      then unless_failed answer.2 fed out rest
      else record { session = s; out = out; error = none }

  -- Each round takes at least one sample, so as many rounds as samples are enough.
  unfoldable pub drain : Bool → StreamSession T A → List ServerFrame → Drained T A
  unfolding rounds chunk_of
  drain partials s out = rounds (length s.pending) (chunk_of t s) partials s out

  unfoldable pub last_frame : Option String → StreamSession T A → ServerFrame
  unfolding failure
  last_frame none s = final (normalise s.raw)
  last_frame (some err) s = failure err

  unfoldable pub finish :
      Signal A → StreamSession T A → List ServerFrame → StreamSession T A × List ServerFrame × Next
  unfolding drain last_frame chunk_of
  finish m s out =
      let chunk = chunk_of t s in
      let flush = sample_rate * flush_silence_ms / 1000 in
      let target = (length s.pending + flush + (chunk - 1)) / chunk * chunk in
      let padded = s.pending ++ replicate (target - length s.pending) m.silent in
      let d = drain false (record s { pending = padded }) out in
      (d.session, d.out ++ last_frame d.error d.session ∷ [], close)

  unfoldable pub heard :
      Option String → Bool → Signal A → Drained T A → StreamSession T A × List ServerFrame × Next
  unfolding failure finish
  heard (some err) ended m d = (d.session, d.out ++ failure err ∷ [], close)
  heard none ended m d = if ended then finish m d.session d.out else (d.session, d.out, continue)

  unfoldable pub handle :
      Signal A → ClientFrame → StreamSession T A → StreamSession T A × List ServerFrame × Next
  unfolding decode feed drain heard finish
  handle m (audio bytes) s =
      let samples = decode m s.odd_byte bytes in
      let listened = feed m samples.0 s.vad in
      let d =
        drain true
          (record s { odd_byte = samples.1; vad = listened.0; pending = s.pending ++ samples.0 })
          [] in
      heard d.error listened.1 m d
  handle m end s = finish m s []
  handle m cancel s = (s, [], close)
