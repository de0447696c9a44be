-- ===== src/Examples/Terminals.antt =====
-- An answer of two lines that arrives in three chunks, the prompt cut in the middle.
use pipelined_core.Common.{arith, ℕ, true, false, List, [], ◌∷◌, ◌++◌, ok, err, none, ◌≡◌, refl}
use pipelined_core.Common.Bytes.{Bytes}
use pipelined_core.Common.Text.{Text, codes}
use pipelined_core.Lockstep.Error.{terminal_closed}
use pipelined_core.Lockstep.Terminal.{response, response_lines, split_prompt}
use pipelined_core.Lockstep.Terminal.Framing.{
  prompt, lf_prompt, bare_prompt, Arrives, there, more, crlf, lf, bare,
}
use pipelined_core.Lockstep.Terminal.Answers.{answers_of, answer, silent, session-Talks}
use pipelined_core.Lockstep.Terminal.Session.{Child, start}

abbrev same_text : Bytes → Text
same_text bytes = bytes

abbrev body : Bytes
body = codes "core 0: 1" ++ (10 ∷ codes " 0x80 ")

abbrev first_part : Bytes
first_part = codes "core 0"

abbrev second_part : Bytes
second_part = codes ": 1" ++ (10 ∷ codes " 0x80 " ++ (13 ∷ 10 ∷ codes ":"))

abbrev shorter : Bytes
shorter = codes "0x4"

-- Two answers, the second one with a line feed alone, and what comes behind them.
abbrev in_chunks : List Bytes
in_chunks = first_part ∷ second_part ∷ codes " " ∷ (shorter ++ lf_prompt) ∷ codes "later" ∷ []

answer-Arrives : Arrives (body ++ prompt) [] in_chunks ((shorter ++ lf_prompt) ∷ codes "later" ∷ [])
unfolding split_prompt pipelined_core.Lockstep.Terminal.prompt_at
    pipelined_core.Common.Text.Lines.after_prefix
answer-Arrives = more refl (more refl (more refl there))

shorter-Arrives :
    Arrives
      (shorter ++ lf_prompt)
      []
      ((shorter ++ lf_prompt) ∷ codes "later" ∷ [])
      (codes "later" ∷ [])
unfolding split_prompt pipelined_core.Lockstep.Terminal.prompt_at
    pipelined_core.Common.Text.Lines.after_prefix
shorter-Arrives = more refl there

banner-Arrives : Arrives bare_prompt [] (bare_prompt ∷ in_chunks) in_chunks
unfolding split_prompt pipelined_core.Lockstep.Terminal.prompt_at
    pipelined_core.Common.Text.Lines.after_prefix
banner-Arrives = more refl there

-- A child that has no state.
abbrev still : Child
still = record {
  World = Unit {0};
  exited = λ w. false;
  terminate = λ w. w;
  wait = λ w. (true, w);
  kill = λ w. w;
  close_master = λ w. w;
}

session-Talks_example :
    (start still same_text (bare_prompt ∷ in_chunks) tt ≡ (ok ([], in_chunks), tt))
    × (answers_of same_text same_text (codes "run 1" ∷ codes "pc 0" ∷ []) in_chunks [] ≡ (
      (ok (response_lines body ∷ response_lines shorter ∷ []), ([], codes "later" ∷ [])),
      codes "run 1" ++ (10 ∷ (codes "pc 0" ++ (10 ∷ []))),
    ))
session-Talks_example =
    session-Talks still same_text same_text tt
      ((codes "run 1", body) ∷ (codes "pc 0", shorter) ∷ []) bare banner-Arrives
      (answer (crlf body) answer-Arrives (answer (lf shorter (omega arith)) shorter-Arrives silent))

two_lines : response_lines body ≡ codes "core 0: 1" ∷ codes "0x80" ∷ []
unfolding response_lines pipelined_core.Common.Text.Lines.splitlines
    pipelined_core.Common.Text.Lines.strip
two_lines = refl

-- The terminal closes in the middle of an answer.
closed_early :
    response same_text (first_part ∷ [] ∷ []) [] ≡ (err terminal_closed, (first_part, []))
unfolding response pipelined_core.Common.Text.Lines.after_prefix
closed_early = refl
