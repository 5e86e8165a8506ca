-- ===== src/Core/Turn/Chat.antt =====
-- `chat` of src/lina_core.cpp: one answer, without tools.
use lina_cpx.Prelude.{Bool, not, [], ◌∷◌, ◌++◌, some, Bytes, codes, is_empty, ◌==◌, if◌then◌else◌}
use lina_cpx.Core.Gate.{is_violation}
use lina_cpx.Core.Turn.{telemetry, Stage, Floor, log, imprint, pass_gate}

-- what is behind the last `/`, if there is one
unfoldable pub base_name : Bytes → Bytes → Bytes
base_name whole [] = whole
base_name whole (c ∷ cs) = if c == b'/' then base_name cs cs else base_name whole cs

-- the message as the conversation keeps it, which names an image and does not hold it
unfoldable pub stored_message : Bytes → Bytes → Bytes
unfolding base_name
stored_message user_message image_path =
    if is_empty image_path
    then user_message
    else user_message
      ++ 10 ∷ (codes "[image attached: " ++ (base_name image_path image_path ++ codes "]"))

module _ {S V W : Type 0} where
  -- the driver's answer to a conversation, or a notice when it has no voice
  unfoldable pub voiced : Stage S V W → Floor S V W → Bytes × S
  voiced st f =
      if st.mind.connected f.voice
      then st.mind.generate_raw f.voice st.mind.system_prompt f.conversation
      else (codes "_LINA has no voice right now._", f.voice)

  -- the gate on an answer, which is remembered unless it is withheld
  unfoldable pub gate_answer : Stage S V W → Bytes → Bytes → Floor S V W → Bytes × Floor S V W
  gate_answer st raw user_message f =
      let (final, zone, f') = pass_gate st raw (some user_message) f in
      if is_violation zone
      then (final, log f' (telemetry (codes "chat withheld (polytope)") ∷ []))
      else (final, imprint final zone f')

  -- the conversation with the user's message
  unfoldable pub ask : Bytes → Bytes → Floor S V W → Floor S V W
  ask user_message image_path f = record f {
    conversation = f.conversation ++ (codes "user", stored_message user_message image_path) ∷ [];
  }

  unfoldable pub chat : Stage S V W → Bool → Bytes → Bytes → Floor S V W → Bytes × Floor S V W
  chat st is_ready user_message image_path f =
      if not is_ready
      then (codes "Error: LINA core not ready", f)
      else let asked = ask user_message image_path f in
        let (raw, s') = voiced st asked in
        gate_answer st raw user_message (record asked { voice = s' })
