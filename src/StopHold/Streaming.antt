-- ===== src/StopHold/Streaming.antt =====
-- What a stream with stops sends in all (src/engine/llm_core.rs).
use studio_worker.Base.{
  ℕ, ◌+◌, ◌-◌, true, ◌≡◌, refl, sym, ap, subst, ◌∙◌, Option, none, some, List, [], ◌∷◌, ◌++◌,
  length, take, drop, any, arith, inl, inr, ◌⊎◌, append_assoc, append-nil, length-append,
  length-take, take-append-drop,
}
use studio_worker.StopHold.{
  Text, begins, StopHold, kept, hold_new, first_stop, held_suffix, let_out, after_piece, push_piece,
  let_rest, streamed,
}
use studio_worker.StopHold.Laws.{
  NoStop, Clear, NoStop-drop, held_suffix-le, held_suffix-Clear, Clear-append, Clear-join,
  Clear-NoStop,
}
use studio_worker.StopHold.Cutting.{
  first_stop-none, first_stop-some, any_append, Clear-cut, holding, drop-length, take-length,
  let_out-holding, let_out-all,
}

-- A text is cut where a stop begins.
abbrev pub Cut : List Text → Text → Text → Type 0
Cut stops given sent = (rest : Text) × (given ≡ sent ++ rest) × (any (begins rest) stops ≡ true)

-- What is given, sent and held: all is clear, or a stop has cut it.
abbrev Going : List Text → Text → Text → StopHold → Type 0
Going stops given sent h =
    ((held : Text) × (h ≡ holding stops sent held none)
      × Clear stops sent held
      × NoStop stops held
      × (given ≡ sent ++ held))
    ⊎ ((at : ℕ) × (h ≡ holding stops sent [] (some at)) × NoStop stops sent × Cut stops given sent)

after_piece-Going :
    (stops : List Text) (given sent held : Text) (found : Option ℕ)
    → first_stop stops held ≡ found
    → Clear stops sent held
    → given ≡ sent ++ held
    → let r = after_piece found (holding stops sent held none) in
      Going stops given (sent ++ r.0) r.1
unfolding after_piece
after_piece-Going stops given sent held (some i) e c g =
    let f = first_stop-some stops held i e in
    let x = take i held in
    let at = i + length sent in
    let q : after_piece (some i) (holding stops sent held none)
        ≡ (x, holding stops (sent ++ x) [] (some at)) =
      ap
        (λ out.
          let_out at
            (record { stops = stops; out = out; emitted = length sent; stopped = some at }))
        (take-length sent held i)
      ∙ let_out-all stops sent x (some at) at (omega (arith, f.0, length-take i held)) in
    subst (λ r. Going stops given (sent ++ r.0) r.1) (sym q)
      (inr (
        at,
        refl,
        Clear-cut stops sent held i c f.1,
        (
          drop i held,
          g
              ∙ sym (
                  append_assoc sent x (drop i held)
                  ∙ ap (λ y. sent ++ y) (take-append-drop i held)),
          f.2,
        ),
      ))
after_piece-Going stops given sent held none e c g =
    let n = first_stop-none stops held e in
    let k = length held - held_suffix stops held in
    let q : after_piece none (holding stops sent held none)
        ≡ (take k held, holding stops (sent ++ take k held) (drop k held) none) =
      ap (λ d. let_out (length (sent ++ held) - held_suffix stops d) (holding stops sent held none))
        (drop-length sent held)
      ∙ let_out-holding stops sent held none k (length (sent ++ held) - held_suffix stops held)
          (omega arith) (omega (arith, length-append sent held, held_suffix-le stops held)) in
    subst (λ r. Going stops given (sent ++ r.0) r.1) (sym q)
      (inl (
        drop k held,
        refl,
        Clear-join stops sent (take k held) (drop k held)
            (subst (Clear stops sent) (sym (take-append-drop k held)) c)
            (held_suffix-Clear stops held n),
        NoStop-drop stops k held n,
        g
            ∙ sym (
                append_assoc sent (take k held) (drop k held)
                ∙ ap (λ y. sent ++ y) (take-append-drop k held)),
      ))

push_piece-Going :
    (piece : Text) (stops : List Text) (given sent : Text) (h : StopHold)
    → Going stops given sent h
    → let r = push_piece piece h in Going stops (given ++ piece) (sent ++ r.0) r.1
unfolding push_piece
push_piece-Going piece stops given sent h (inr (at, e, n, (rest, g, b))) =
    subst
      (λ h. Going stops (given ++ piece) (sent ++ (push_piece piece h).0) (push_piece piece h).1)
      (sym e)
      (subst (λ x. Going stops (given ++ piece) x (holding stops sent [] (some at)))
        (sym (append-nil sent))
        (inr (
          at,
          refl,
          n,
          (
            rest ++ piece,
            ap (λ x. x ++ piece) g ∙ append_assoc sent rest piece,
            any_append stops rest piece b,
          ),
        )))
push_piece-Going piece stops given sent h (inl (held, e, c, n, g)) =
    let more = held ++ piece in
    let q : push_piece piece (holding stops sent held none)
        ≡ after_piece (first_stop stops more) (holding stops sent more none) =
      ap
        (λ out.
          after_piece (first_stop stops (drop (length sent) out))
            (record { stops = stops; out = out; emitted = length sent; stopped = none }))
        (append_assoc sent held piece)
      ∙ ap (λ d. after_piece (first_stop stops d) (holding stops sent more none))
          (drop-length sent more) in
    let r =
      after_piece-Going stops (given ++ piece) sent more (first_stop stops more) refl
        (Clear-append stops sent held piece c)
        (ap (λ x. x ++ piece) g ∙ append_assoc sent held piece) in
    subst
      (λ h. Going stops (given ++ piece) (sent ++ (push_piece piece h).0) (push_piece piece h).1)
      (sym e) (subst (λ r. Going stops (given ++ piece) (sent ++ r.0) r.1) (sym q) r)

-- What was sent is the whole text, no stop stands in it, and it is all that was given, up to where a
-- stop begins if one does.
abbrev pub Whole : List Text → Text → Text → StopHold → Type 0
Whole stops given sent h =
    (h.out ≡ sent) × NoStop stops sent × ((given ≡ sent) ⊎ Cut stops given sent)

let_rest-Whole :
    (stops : List Text) (given sent : Text) (h : StopHold)
    → Going stops given sent h
    → let r = let_rest h in Whole stops given (sent ++ r.0) r.1
unfolding let_rest
let_rest-Whole stops given sent h (inl (held, e, c, n, g)) =
    let q =
      let_out-all stops sent held none (length (sent ++ held))
        (omega (arith, length-append sent held)) in
    subst (λ h. Whole stops given (sent ++ (let_rest h).0) (let_rest h).1) (sym e)
      (subst (λ r. Whole stops given (sent ++ r.0) r.1) (sym q)
        (append-nil (sent ++ held), Clear-NoStop stops sent held c n, inl g))
let_rest-Whole stops given sent h (inr (at, e, n, g)) =
    let q =
      let_out-all stops sent [] (some at) (length (sent ++ []))
        (omega (arith, length-append sent [])) in
    let w : NoStop stops (sent ++ []) × ((given ≡ sent ++ []) ⊎ Cut stops given (sent ++ [])) =
      subst (λ x. NoStop stops x × ((given ≡ x) ⊎ Cut stops given x)) (sym (append-nil sent))
        (n, inr g) in
    subst (λ h. Whole stops given (sent ++ (let_rest h).0) (let_rest h).1) (sym e)
      (subst (λ r. Whole stops given (sent ++ r.0) r.1) (sym q) (append-nil (sent ++ []), w.0, w.1))

abbrev pub joined : List Text → Text
joined [] = []
joined (piece ∷ pieces) = piece ++ joined pieces

streamed-Whole :
    (pieces : List Text) (stops : List Text) (given sent : Text) (h : StopHold)
    → Going stops given sent h
    → let r = streamed pieces h in Whole stops (given ++ joined pieces) (sent ++ r.0) r.1
unfolding streamed
streamed-Whole [] stops given sent h g =
    subst (λ x. Whole stops x (sent ++ (let_rest h).0) (let_rest h).1) (sym (append-nil given))
      (let_rest-Whole stops given sent h g)
streamed-Whole (piece ∷ pieces) stops given sent h g =
    let p = push_piece piece h in
    let q = streamed pieces p.1 in
    let rest =
      streamed-Whole pieces stops (given ++ piece) (sent ++ p.0) p.1
        (push_piece-Going piece stops given sent h g) in
    subst (λ x. Whole stops x (sent ++ (p.0 ++ q.0)) q.1) (append_assoc given piece (joined pieces))
      (subst (λ x. Whole stops ((given ++ piece) ++ joined pieces) x q.1)
        (append_assoc sent p.0 q.0) rest)

-- However the generated text is split into pieces: what is streamed, put together, is the whole text
-- as it stands at the end, so nothing that was sent is taken back; it is all that was generated, or
-- that up to where a stop begins; and none of the stops that are not empty stands anywhere in it.
pub streamed_lem :
    (stops pieces : List Text)
    → let r = streamed pieces (hold_new stops) in Whole (kept stops) (joined pieces) r.0 r.1
unfolding hold_new
streamed_lem stops pieces =
    streamed-Whole pieces (kept stops) [] [] (hold_new stops) (inl ([], refl, tt, tt, refl))
