-- ===== src/Cbor/Entries.antt =====
-- What the value of a request holds under its integer keys.
use fido.Base.{ℕ, Option, none, some, List, [], ◌∷◌, if◌then◌else◌}
use fido.Base.Int.{ℤ, pos, int_eq}
use fido.Cbor.{Value, labels, Labels, entry, end}

-- The value under a key of a request.
abbrev pub at_key : ℤ → Labels → Option Value
at_key key end = none
at_key key (entry k v more) = if int_eq k key then some v else at_key key more

abbrev pub held : ℕ → Value → Option Value
held key (labels l) = at_key (pos key) l
held key _ = none

-- The keys of a request.
abbrev pub keys_of : Labels → List ℤ
keys_of end = []
keys_of (entry k v more) = k ∷ keys_of more

abbrev pub request_keys : Value → List ℤ
request_keys (labels l) = keys_of l
request_keys _ = []
