-- ===== src/Consent/Tests.antt =====
-- The broker on concrete prompts and answers.
use synth_hires_bridge.Prelude.{true, false, ◌≡◌, some, List, [], ◌∷◌, ◌++◌}
use synth_hires_bridge.Consent.{ConsentPrompt, ConsentAnswer, new, ask, forget, answer}
use synth_hires_bridge.Consent.Delivery.{Answered, Call, asks, answers, ask-answer}

abbrev yes : ConsentAnswer
yes = record { approved = true; remember = false }

abbrev write_prompt : ConsentPrompt
write_prompt = record {
  action_id = "a1";
  capability = "desktop.fs.write";
  summary = "desktop.fs.write sobre /tmp/x";
  path = some "/tmp/x";
}

ask-answer_example :
    (let after = answer (ask new write_prompt).1 "a1" yes in
      Answered new "a1" yes after
      × (after.1.delivered ≡ new.delivered ++ ((ask new write_prompt).0, yes) ∷ []))
    × (let after = answer (forget (ask new write_prompt)) "a1" yes in
        Answered new "a1" yes after × (after.1.delivered ≡ new.delivered))
ask-answer_example = ask-answer new write_prompt yes tt

-- A prompt that is asked once and answered twice.
abbrev doubled : List Call
doubled = asks write_prompt ∷ answers "a1" yes ∷ answers "a1" yes ∷ []
