-- ===== src/Server/Reply/Hiding.antt =====
-- Server.Reply: what an error's text may reach of the reply.
use pgjobq.Base.{◌≡◌, refl, ap, ◌∙◌, ◌≤◌, String, Option, arith}
use pgjobq.Server.Reply.{
  Raised, zod_error, domain, entity_too_large, bad_json, unknown_error, ErrorClass, class_reply,
  error_handler,
}

-- Errors of the same kind: they differ in their texts alone.
abbrev pub SameKind : Raised → Raised → Type 0
SameKind (domain e) (domain f) = e.class ≡ f.class
SameKind (unknown_error a) (unknown_error b) = Unit {0}
SameKind (zod_error a) (zod_error b) = Unit {0}
SameKind entity_too_large entity_too_large = Unit {0}
SameKind bad_json bad_json = Unit {0}
SameKind _ _ = ⊥

class_reply_hides :
    (c : ErrorClass) (m n : String) (d d' : Option String)
    → 500 ≤ (class_reply c m d).status
    → class_reply c m d ≡ class_reply c n d'
unfolding class_reply
class_reply_hides ErrorClass.timed_out m n d d' h = refl
class_reply_hides ErrorClass.config m n d d' h = refl
class_reply_hides ErrorClass.migration m n d d' h = refl
class_reply_hides ErrorClass.database m n d d' h = refl
class_reply_hides _ m n d d' h = absurd (omega (arith, h))

-- A reply with a status of 500 or more tells nothing of the error but its kind: two errors of one
-- kind, whatever their messages and details, have the same reply.
pub error_handler_hides :
    (a b : Raised)
    → SameKind a b
    → 500 ≤ (error_handler a).status
    → error_handler a ≡ error_handler b
unfolding error_handler
error_handler_hides (domain e) (domain f) s h =
    class_reply_hides e.class e.message f.message e.details f.details h
    ∙ ap (λ c. class_reply c f.message f.details) s
error_handler_hides (unknown_error a) (unknown_error b) s h = refl
error_handler_hides (zod_error a) (zod_error b) s h = absurd (omega arith)
error_handler_hides entity_too_large entity_too_large s h = refl
error_handler_hides bad_json bad_json s h = refl
error_handler_hides _ _ s h = absurd s
