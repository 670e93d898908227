-- ===== src/Promote/Certificate/Message.antt =====
-- The message that a signature covers does not separate the fields that it joins.
use Prim.Native.String.{◌++◌}
use text.Mathlib.TextLemmas.{append_assoc}
use navin_engine.Prelude.{String, ◌≡◌}
use navin_engine.Prelude.Text.{join}
use navin_engine.Promote.Certificate.{Certificate, signing_message}

-- Whatever the certificate, a text that moves across the line break between the finding and the
-- candidate's id changes both fields and leaves the signed message as it was.
pub signing_message_shift :
    (c : Certificate) (a b d : String)
    → signing_message (record c { finding = a ++ "\n" ++ b; candidate_id = d })
      ≡ signing_message (record c { finding = a; candidate_id = b ++ "\n" ++ d })
unfolding signing_message join
signing_message_shift c a b d = simp append_assoc
