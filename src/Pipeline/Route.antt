-- ===== src/Pipeline/Route.antt =====
-- internal/msgpipeline/msgpipeline.go: `srcBlockForAddr` and `rcptBlockForAddr`.
pub mod Rules
use sirr_mesh.Base.{
  ℕ, Bool, true, false, Option, none, some, List, [], ◌∷◌, Text, text, Map, lookup, Result, ok, err,
}
use sirr_mesh.Exterrors.{Error, plain, smtp_error}
use sirr_mesh.Address.Errors.{Err}
use sirr_mesh.Address.Syntax.{split}
use sirr_mesh.Address.Norm.{Packages, for_lookup}
use sirr_mesh.Pipeline.Config.{Lookup, SourceBlock, MsgPipeline}

-- The replies of the pipeline to an address that it cannot read; the text of the cause is left out.
abbrev pub address_error : ℕ → ℕ → ℕ → Text → Text → Error
address_error c subject detail msg why =
    smtp_error
      (record {
        code = c;
        enhanced_code = record { major = 5; subject = subject; detail = detail };
        message = msg;
        check_name = [];
        target_name = [];
        modifier_name = [];
        reason = why;
        misc = [];
      })
      (plain [])

no_parts : Text
no_parts = text "Can't extract local-part and host-part"

bad_sender : Error
bad_sender = address_error 501 1 7 (text "Unable to normalize the sender address") []

split_sender : Error
unfolding no_parts
split_sender = address_error 501 1 3 (text "Invalid sender address") no_parts

bad_rcpt : Error
bad_rcpt = address_error 553 1 2 (text "Unable to normalize the recipient address") []

split_rcpt : Error
unfolding no_parts
split_rcpt = address_error 501 1 3 (text "Invalid recipient address") no_parts

module _ {B : Type 0} where
  pub or_try : Result Error Bool → B → Option B → Option B
  or_try (ok true) block next = some block
  or_try (ok false) block next = next
  or_try (err e) block next = next

  -- The loop over `source_in` or `destination_in`: a table that fails is passed over.
  unfoldable pub first_match : List (Lookup × B) → Text → Option B
  unfolding or_try
  first_match [] key = none
  first_match ((t, block) ∷ rest) key = or_try (t key) block (first_match rest key)

  or_default : Option B → B → B
  or_default (some block) d = block
  or_default none d = d

  by_domain : Map B → B → Error → Bool → Result Err (Text × Text) → Result Error B
  unfolding or_default lookup
  by_domain rules d bad null (ok (mbox, domain)) = ok (or_default (lookup domain rules) d)
  by_domain rules d bad true (err e) = ok (or_default (lookup [] rules) d)
  by_domain rules d bad false (err e) = err bad

  by_address : Map B → B → Error → Bool → Text → Option B → Result Error B
  unfolding by_domain split
  by_address rules d bad null key (some block) = ok block
  by_address rules d bad null key none = by_domain rules d bad null (split key)

  by_rules : Map B → B → Error → Bool → Text → Option B → Result Error B
  unfolding by_address lookup
  by_rules rules d bad null key (some block) = ok block
  by_rules rules d bad null key none = by_address rules d bad null key (lookup key rules)

  -- `ForLookup` has failed, or not.
  with_key :
      List (Lookup × B) → Map B → B → Error → Error → Bool → Text × Option Err → Result Error B
  unfolding by_rules first_match
  with_key tables rules d unreadable bad null (key, some e) = err unreadable
  with_key tables rules d unreadable bad null (key, none) =
      by_rules rules d bad null key (first_match tables key)

is_null : Text → Bool
is_null [] = true
is_null _ = false

clean_sender : Packages → Text → Text × Option Err
unfolding for_lookup
clean_sender p [] = ([], none)
clean_sender p (c ∷ from) = for_lookup p (c ∷ from)

null_key : Text × Option Err → Bool
unfolding is_null
null_key (key, e) = is_null key

-- `srcBlockForAddr`
unfoldable pub src_block_for_addr : Packages → MsgPipeline → Text → Result Error SourceBlock
unfolding with_key clean_sender null_key bad_sender split_sender
src_block_for_addr p d from =
    with_key d.source_in d.per_source d.default_source bad_sender split_sender
      (null_key (clean_sender p from)) (clean_sender p from)

-- `rcptBlockForAddr`
unfoldable pub rcpt_block_for_addr : Packages → SourceBlock → Text → Result Error ℕ
unfolding with_key bad_rcpt split_rcpt for_lookup
rcpt_block_for_addr p s rcpt =
    with_key s.rcpt_in s.per_rcpt s.default_rcpt bad_rcpt split_rcpt false (for_lookup p rcpt)
