-- ===== src/SandboxAllow/Addresses.antt =====
-- config/sandbox_allow.go: which addresses an override may name.
use pmg.Prelude.{
  ℕ, ◌≡◌, refl, ap, ◌∙◌, Bool, true, false, ◌&&◌, not, Option, none, some, Text, codes, ◌=ₜ◌,
  is_empty, Lacks, cut_first-append, cut_last-append, [], ◌∷◌, ◌++◌, if◌then◌else◌, Bool-cases, inl,
  inr, arith,
}
use pmg.Prelude.Result.{Result, ok, err, ◌>>=◌}
use pmg.SandboxAllow.{
  SandboxAllowOverride, OverrideError, sandbox_allow_net_connect, parse_single_override,
  validate_net_connect, validate_and_resolve_value, split_override, split_host_port, check_connect,
  override, parse_host_port, has_wildcard,
}

-- A host and a port that are there, and neither with a wildcard.
abbrev pub is_exact_address : Text → Text → Bool
is_exact_address host port =
    not (is_empty host)
    && (not (is_empty port) && (not (has_wildcard host) && not (port =ₜ codes "*")))

abbrev pub accepted : {A : Type 0} → Result OverrideError A → Option A
accepted (ok a) = some a
accepted (err e) = none

accepted-check_connect :
    (value host port : Text)
    → accepted (check_connect value (host, port))
      ≡ (if not (has_wildcard host) && not (port =ₜ codes "*") then some value else none)
accepted-check_connect value host port = elim (Bool-cases (has_wildcard host)) [
  | inl e ↦ rw e refl
  | inr e ↦ rw e (elim (Bool-cases (port =ₜ codes "*")) [ inl q ↦ rw q refl | inr q ↦ rw q refl ])
]

abbrev connects : Text → Result OverrideError (Text × Text) → Result OverrideError Text
connects value r = r >>= check_connect value

connects-split :
    (value host port : Text)
    → accepted (connects value (split_host_port (some (host, port))))
      ≡ (if is_exact_address host port then some value else none)
connects-split value [] port = refl
connects-split value (c ∷ host) [] = refl
connects-split value (c ∷ host) (d ∷ port) = accepted-check_connect value (c ∷ host) (d ∷ port)

abbrev connect_override : Text → Option Text → Option SandboxAllowOverride
connect_override raw none = none
connect_override raw (some value) =
    some (record { allow_type = sandbox_allow_net_connect; value = value; raw = raw })

accepted-override :
    (raw : Text) (r : Result OverrideError Text)
    → accepted (override raw sandbox_allow_net_connect r) ≡ connect_override raw (accepted r)
accepted-override raw (ok v) = refl
accepted-override raw (err e) = refl

connect_override-if :
    (raw value : Text) (b : Bool)
    → connect_override raw (if b then some value else none)
      ≡ (if b then connect_override raw (some value) else none)
connect_override-if raw value true = refl
connect_override-if raw value false = refl

accepted-validate_net_connect :
    (host port : Text)
    → Lacks 58 port
    → accepted (validate_net_connect (host ++ 58 ∷ port))
      ≡ (if is_exact_address host port then some (host ++ 58 ∷ port) else none)
unfolding validate_net_connect parse_host_port
accepted-validate_net_connect host port l =
    rw (cut_last-append 58 host port l) (connects-split (host ++ 58 ∷ port) host port)

not_empty-append : (a b : Text) (c : ℕ) → is_empty (a ++ c ∷ b) ≡ false
not_empty-append [] b c = refl
not_empty-append (d ∷ a) b c = refl

abbrev net_connect : Text
net_connect = codes "net-connect"

net_connect-Lacks : Lacks 61 net_connect
net_connect-Lacks = (
  λ e. omega arith,
  (
    λ e. omega arith,
    (
      λ e. omega arith,
      (
        λ e. omega arith,
        (
          λ e. omega arith,
          (
            λ e. omega arith,
            (
              λ e. omega arith,
              (λ e. omega arith, (λ e. omega arith, (λ e. omega arith, (λ e. omega arith, tt)))),
            ),
          ),
        ),
      ),
    ),
  ),
)

-- An override of the network is accepted exactly for an exact address, as it is written.
pub accepted-parse_single_override :
    (cwd : Option Text) (host port : Text)
    → Lacks 58 port
    → accepted (parse_single_override cwd (net_connect ++ 61 ∷ (host ++ 58 ∷ port))) ≡ (
        if is_exact_address host port
        then some (record {
          allow_type = sandbox_allow_net_connect;
          value = host ++ 58 ∷ port;
          raw = net_connect ++ 61 ∷ (host ++ 58 ∷ port);
        })
        else none)
unfolding parse_single_override validate_and_resolve_value
accepted-parse_single_override cwd host port l =
    let raw = net_connect ++ 61 ∷ (host ++ 58 ∷ port) in
    ap (λ o. accepted (split_override cwd raw o))
      (cut_first-append 61 net_connect (host ++ 58 ∷ port) net_connect-Lacks)
    ∙ rw (not_empty-append host port 58) (
        accepted-override raw (validate_net_connect (host ++ 58 ∷ port))
        ∙ ap (connect_override raw) (accepted-validate_net_connect host port l)
        ∙ connect_override-if raw (host ++ 58 ∷ port) (is_exact_address host port))
