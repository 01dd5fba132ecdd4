-- ===== src/Queue/Retry.antt =====
-- queue.go, `tryDelivery` behind the attempt, and `toSMTPErr`: the recipients are sorted into
-- delivered, failed and to be tried again, and the next try is timed.
--
-- `math.Pow(1.25, n-1)` truncated to an integer is `5 ^ (n-1) / 4 ^ (n-1)`: for n up to 20, the
-- default of `max_tries`, the power is a float64 exactly. The product with the initial delay is an
-- int64; its bit pattern is given. The metadata are those in the file, which each try reads anew; a
-- read that fails is not modelled here.
pub mod Sorting
pub mod Bounded
pub mod Delay
pub mod Reply
mod Tests
use Prim.Native.Nat.{◌%◌}
use sirr_mesh.Base.{
  Bool, true, false, ℕ, ◌+◌, ◌-◌, ◌*◌, ◌/◌, ◌^◌, not, ◌||◌, Option, none, some, List, [], ◌∷◌, ◌++◌,
  ltb, leb, if◌then◌else◌, Text, text, Map, lookup, insert, delete,
}
use sirr_mesh.Exterrors.{
  Error, EnhancedCode, Value, int, go_enhanced, str, go_smtp, is_temporary_or_unspec, fields_of,
}
use sirr_mesh.Queue.Deliver.{Errs}

-- `*smtp.SMTPError`
pub record SmtpReply : Type 0 where
  pub code : ℕ
  pub enhanced_code : EnhancedCode
  pub message : Text

-- The fields that override the default of `toSMTPErr`, if they have the type asserted.
with_code : Option Value → SmtpReply → SmtpReply
with_code (some (int c)) res = record res { code = c }
with_code _ res = res

-- The assertion is on go-smtp's `EnhancedCode`.
with_enhanced : Option Value → SmtpReply → SmtpReply
with_enhanced (some (go_enhanced c)) res = record res { enhanced_code = c }
with_enhanced _ res = res

with_message : Option Value → SmtpReply → SmtpReply
with_message (some (str m)) res = record res { message = m }
with_message _ res = res

-- `err.(*smtp.SMTPError)`, of the outermost error.
plain_reply : Error → SmtpReply → SmtpReply
plain_reply (go_smtp c e m t) res = record { code = c; enhanced_code = e; message = m }
plain_reply _ res = res

abbrev class_of : ℕ → EnhancedCode
class_of c = record { major = c; subject = 0; detail = 0 }

-- The reply before any field is read.
pub default_reply : Error → SmtpReply
default_reply err =
    if is_temporary_or_unspec err
    then record { code = 451; enhanced_code = class_of 4; message = text "Internal server error" }
    else record { code = 554; enhanced_code = class_of 5; message = text "Internal server error" }

unfoldable pub to_smtp_err : Error → SmtpReply
unfolding with_code with_enhanced with_message plain_reply default_reply is_temporary_or_unspec
to_smtp_err err =
    let fields = fields_of err in
    plain_reply err (
      with_message (lookup (text "smtp_msg") fields) (
        with_enhanced (lookup (text "smtp_enchcode") fields)
          (with_code (lookup (text "smtp_code") fields) (default_reply err))))

-- The parts of `QueueMetadata` that an attempt changes.
pub record Meta : Type 0 where
  pub to : List Text
  pub rcpt_errs : Map SmtpReply
  pub tries_count : Map ℕ

-- `m[k]`, where a missing key reads 0.
abbrev pub count_of : Text → Map ℕ → ℕ
count_of r tries = elim (lookup r tries) [ none ↦ 0 | some n ↦ n ]

-- The variables of the loop of `tryDelivery`.
pub record Sorted : Type 0 where
  pub new_rcpts : List Text
  pub failed_rcpts : List Text
  pub rcpt_errs : Map SmtpReply
  pub tries : Map ℕ
  pub smallest : ℕ

-- No error, or the error that the target gave for the recipient.
sort_failed : ℕ → Error → Text → Sorted → Sorted
unfolding insert delete lookup
sort_failed max_tries err r s =
    let errs = insert r (to_smtp_err err) s.rcpt_errs in
    let count = count_of r s.tries + 1 in
    if not (is_temporary_or_unspec err) || leb max_tries count
    then record s {
      rcpt_errs = errs;
      tries = delete r s.tries;
      failed_rcpts = s.failed_rcpts ++ (r ∷ []);
    }
    else record s {
      rcpt_errs = errs;
      tries = insert r count s.tries;
      new_rcpts = s.new_rcpts ++ (r ∷ []);
      smallest = if ltb count s.smallest then count else s.smallest;
    }

sort_rcpt : ℕ → Option Error → Text → Sorted → Sorted
unfolding sort_failed
sort_rcpt max_tries none r s = s
sort_rcpt max_tries (some err) r s = sort_failed max_tries err r s

sort_rcpts : ℕ → Errs → Sorted → List Text → Sorted
unfolding sort_rcpt
sort_rcpts max_tries errs s [] = s
sort_rcpts max_tries errs s (r ∷ to) =
    sort_rcpts max_tries errs (sort_rcpt max_tries (lookup r errs) r s) to

abbrev pub sorting : Meta → Sorted
sorting meta = record {
  new_rcpts = [];
  failed_rcpts = [];
  rcpt_errs = meta.rcpt_errs;
  tries = meta.tries_count;
  smallest = 999999;
}

unfoldable pub sort_meta : ℕ → Errs → Meta → Sorted
unfolding sort_rcpts
sort_meta max_tries errs meta = sort_rcpts max_tries errs (sorting meta) meta.to

-- `initialRetryTime`, in nanoseconds.
abbrev pub initial_retry_time : ℕ
initial_retry_time = 15 * 60 * 1000000000

-- `time.Duration(math.Pow(retryTimeScale, n-1))`
unfoldable pub scale_factor : ℕ → ℕ
scale_factor n = 5 ^ (n - 1) / 4 ^ (n - 1)

unfoldable pub retry_delay : ℕ → ℕ
unfolding scale_factor
retry_delay n = (initial_retry_time * scale_factor n) % 2 ^ 64

-- What `tryDelivery` leads to, with the recipients that `emitDSN` reports (none: no report).
pub data Outcome : Type 0 where
  -- `removeFromDisk`
  removed : List Text → Outcome
  -- the metadata that is on disk then, which the next try reads, and its delay
  requeued : List Text → Meta → ℕ → Outcome

-- After `updateMetadataOnDisk`: its error is only logged, and the metadata before it stay.
on_disk : Bool → Meta → Meta → Meta
on_disk true old new = new
on_disk false old new = old

-- `saved` says whether the metadata can be written, and `old` are those on disk.
conclude : Bool → Meta → Sorted → List Text → Outcome
unfolding retry_delay on_disk
conclude saved old s [] = removed s.failed_rcpts
conclude saved old s (r ∷ rcpts) =
    requeued s.failed_rcpts
      (on_disk saved old
        (record { to = r ∷ rcpts; rcpt_errs = s.rcpt_errs; tries_count = s.tries }))
      (retry_delay s.smallest)

-- `tryDelivery` of the metadata as they are on disk, given the errors of `deliver`.
unfoldable pub try_delivery : ℕ → Errs → Bool → Meta → Outcome
unfolding conclude sort_meta
try_delivery max_tries errs saved meta =
    let s = sort_meta max_tries errs meta in conclude saved meta s s.new_rcpts
