-- ===== src/Approval.antt =====
-- `ApprovalRecord` of src/asme/contract.py. `datetime.fromisoformat` is a parameter: a text is no
-- timestamp, or a timestamp without a time zone, or a moment.
mod Laws
mod Tests
use agentic_skills_lifecycle.Prelude.{
  ℕ, String, str_append, str_eq, codes, Bool, true, false, not, ◌&&◌, ◌||◌, Option, none, some,
  List, [], ◌∷◌, Result, ok, err, ◌>>=◌, ◌>>◌, raise_if, is_blank, all, any, length, leb, ltb, ◌==◌,
  Dict, lookup, opt_is,
}

pub data Stamp : Type 0 where
  malformed naive : Stamp
  moment : ℕ → Stamp

pub record ApprovalRecord : Type 0 where
  pub approval_id : String
  pub phase : String
  pub artifact_hashes : Dict String
  pub runtime_id : Option String
  pub destination : Option String
  pub approved_at : String
  pub expires_at : String
  pub approver : String
  pub consumed : Bool

-- The arguments of `validate_for`, with the time at which it is called.
pub record Use : Type 0 where
  pub phase : String
  pub artifact_hashes : Dict String
  pub runtime_id : Option String
  pub destination : Option String
  pub now : Stamp

-- `[0-9a-f]{64}`
unfoldable pub is_digest : String → Bool
is_digest s =
    length (codes s) == 64
    && all (λ c. (leb b'0' c && leb c b'9') || (leb b'a' c && leb c b'f')) (codes s)

-- Every entry of the left stands in the right.
unfoldable pub agrees : Dict String → Dict String → Bool
agrees [] n = true
agrees ((k, v) ∷ m) n = opt_is (lookup k n) v && agrees m n

-- `left == right` of two mappings.
unfoldable pub same_dict : Dict String → Dict String → Bool
unfolding agrees
same_dict m n = agrees m n && agrees n m

abbrev same_option : Option String → Option String → Bool
same_option none none = true
same_option (some a) (some b) = str_eq a b
same_option _ _ = false

-- `_aware_datetime`, of a text that is parsed
unfoldable pub aware_datetime : Stamp → String → Result String ℕ
aware_datetime malformed name = err (str_append name " must be an ISO-8601 timestamp")
aware_datetime naive name = err (str_append name " must include timezone")
aware_datetime (moment t) name = ok t

unfoldable pub current_moment : Stamp → Result String ℕ
current_moment (moment t) = ok t
current_moment _ = err "approval validation time must include timezone"

module _ (parse : String → Stamp) where
  -- `ApprovalRecord.__post_init__`
  unfoldable pub checked_approval : ApprovalRecord → Result String ApprovalRecord
  unfolding is_digest aware_datetime
  checked_approval r = do
    raise_if (is_blank r.approval_id || is_blank r.phase || is_blank r.approver)
        "approval identity, phase, and approver cannot be blank"
    raise_if (any (λ e. is_blank e.0 || not (is_digest e.1)) r.artifact_hashes)
        "approval artifacts require named lowercase hexadecimal SHA-256 digests"
    approved ← aware_datetime (parse r.approved_at) "approval time"
    expires ← aware_datetime (parse r.expires_at) "approval expiry"
    raise_if (leb expires approved) "approval expiry must be after approval time"
    ok r

  -- `ApprovalRecord.validate_for`
  unfoldable pub validate_for : ApprovalRecord → Use → Result String (Unit {0})
  unfolding same_dict aware_datetime current_moment
  validate_for r u = do
    raise_if r.consumed "approval record has already been consumed"
    raise_if (not (str_eq r.phase u.phase) || not (same_dict r.artifact_hashes u.artifact_hashes))
        "approval scope or artifact hash mismatch"
    raise_if
        (not (same_option r.runtime_id u.runtime_id)
          || not (same_option r.destination u.destination))
        "approval runtime or destination mismatch"
    current ← current_moment u.now
    approved ← aware_datetime (parse r.approved_at) "approval time"
    expires ← aware_datetime (parse r.expires_at) "approval expiry"
    raise_if (ltb current approved) "approval record is not active yet"
    raise_if (leb expires current) "approval record has expired"

  -- `ApprovalRecord.consume`; `replace` runs the checks of the record again.
  unfoldable pub consume : ApprovalRecord → Result String ApprovalRecord
  unfolding checked_approval
  consume r = do
    raise_if r.consumed "approval record has already been consumed"
    checked_approval (record r { consumed = true })
