-- ===== src/Endpoint/Reply/Tests.antt =====
-- A reply to a client without SMTPUTF8.
use sirr_mesh.Base.{◌≡◌, refl, false, [], ◌∷◌, text}
use sirr_mesh.Exterrors.{Smtp}
use sirr_mesh.Endpoint.Reply.{Wire, mangled}

abbrev wires : Wire
wires = record {
  is_deadline = λ e. false;
  not_set = record { major = 0; subject = 0; detail = 0 };
  auth_required = record {
    code = 502;
    enhanced_code = record { major = 5; subject = 7; detail = 0 };
    message = [];
  };
}

abbrev unknown_user : Smtp
unknown_user = record {
  code = 550;
  enhanced_code = record { major = 5; subject = 1; detail = 1 };
  message = text "no é";
  check_name = [];
  target_name = [];
  modifier_name = [];
  reason = [];
  misc = [];
}

-- U+0080 is no ASCII character and passes.
first_wide : mangled (0x7F ∷ 0x80 ∷ 0x81 ∷ []) ≡ 0x7F ∷ 0x80 ∷ b'?' ∷ []
unfolding mangled
first_wide = refl
