-- ===== src/Domains/DomainForm/Laws.antt =====
-- What the schema lets through, and opening and submitting the form.
use go_check_ssl.Prelude.{
  ℕ, ◌≤◌, Bool, true, false, Option, none, some, [], ◌==◌, if◌then◌else◌, ◌or◌, ◌≡◌, refl, chain,
  ap, sym, ◌∙◌, inl, inr, arith, Bool-cases, ==_iff,
}
use go_check_ssl.Prelude.Text.{Text, trim, trim_start, trim_end, truthy}
use go_check_ssl.Prelude.Text.Laws.{trim_idem}
use go_check_ssl.Prelude.Text.Decimal.{to_decimal}
use go_check_ssl.Prelude.Text.Number.{decimal, js_number}
use go_check_ssl.Prelude.Text.Number.Laws.{
  js_number-to_decimal, trim-digits, all_digits-to_decimal, truthy-to_decimal,
}
use go_check_ssl.Types.{ApiDomain}
use go_check_ssl.Payloads.{DomainPayload}
use go_check_ssl.Domains.DomainForm.{
  DomainFormInput, PortInput, number, IntervalPreset, one_day, three_days, seven_days,
  fourteen_days, thirty_days, custom, preset_seconds, preset_of, preset_for_interval,
  default_values, natural, coerce, between, checked_port, at_least, checked_interval, assemble,
  domain_payload,
}

-- What the API takes without a complaint about the hostname, the port or the interval.
pub record IsSubmittable (p : DomainPayload) : Type 0 where
  pub named : truthy p.hostname ≡ true
  pub trimmed : trim p.hostname ≡ p.hostname
  pub port_low : 1 ≤ p.port
  pub port_high : p.port ≤ 65535
  pub interval : 60 ≤ p.check_interval_seconds

between-bounds :
    (low high : ℕ) (o : Option ℕ) (n : ℕ) → between low high o ≡ some n → (low ≤ n) × (n ≤ high)
unfolding between
between-bounds low high o n h = ground (arith, h)

at_least-bound : (low : ℕ) (o : Option ℕ) (n : ℕ) → at_least low o ≡ some n → low ≤ n
unfolding at_least
at_least-bound low o n h = ground (arith, h)

preset_seconds-bound : (p : IntervalPreset) (n : ℕ) → preset_seconds p ≡ some n → 60 ≤ n
unfolding preset_seconds
preset_seconds-bound p n h = ground (arith, h)

chosen-bound :
    (b : Bool) (o q : Option ℕ) (n : ℕ)
    → (if b then at_least 60 o else q) ≡ some n
    → ((m : ℕ) → q ≡ some m → 60 ≤ m)
    → 60 ≤ n
chosen-bound true o q n h k = at_least-bound 60 o n h
chosen-bound false o q n h k = k n h

checked_interval-bound :
    (p : IntervalPreset) (text : Text) (n : ℕ) → checked_interval p text ≡ some n → 60 ≤ n
unfolding checked_interval
checked_interval-bound p text n h =
    chosen-bound (truthy (trim text)) (natural (js_number (trim text))) (preset_seconds p) n h
      (preset_seconds-bound p)

-- The parts that a submitted payload was put together from.
abbrev Parts : Text → Option ℕ → Option ℕ → DomainPayload → Type 0
Parts hostname port interval p =
    (hostname ≡ p.hostname) × (port ≡ some p.port) × (interval ≡ some p.check_interval_seconds)

assemble-Parts :
    (hostname target_ip : Text) (enabled : Bool) (port interval : Option ℕ) (p : DomainPayload)
    → assemble hostname target_ip enabled port interval ≡ some p
    → Parts hostname port interval p
unfolding assemble
assemble-Parts hostname target_ip enabled none interval p h = ground (arith, h)
assemble-Parts hostname target_ip enabled (some port) none p h = ground (arith, h)
assemble-Parts hostname target_ip enabled (some port) (some seconds) p h = (
  ap (λ (o : Option DomainPayload). chain o (λ q. q.hostname) or []) h,
  ap (λ (o : Option DomainPayload). chain o (λ q. q.port)) h,
  ap (λ (o : Option DomainPayload). chain o (λ q. q.check_interval_seconds)) h,
)

guarded :
    (b : Bool) (o : Option DomainPayload) (p : DomainPayload)
    → (if b then o else none) ≡ some p
    → (b ≡ true) × (o ≡ some p)
guarded true o p h = (refl, h)
guarded false o p h = ground (arith, h)

payload-Parts :
    (values : DomainFormInput) (p : DomainPayload)
    → domain_payload values ≡ some p
    → (truthy (trim values.hostname) ≡ true)
      × Parts
          (trim values.hostname)
          (checked_port values.port)
          (checked_interval values.interval_preset values.custom_interval_seconds)
          p
unfolding domain_payload
payload-Parts values p h =
    let (named, put_together) = guarded (truthy (trim values.hostname)) _ p h in
    (named, assemble-Parts _ _ _ _ _ p put_together)

submittable :
    (s : Text) (port : PortInput) (preset : IntervalPreset) (text : Text) (p : DomainPayload)
    → truthy (trim s) ≡ true
    → Parts (trim s) (checked_port port) (checked_interval preset text) p
    → IsSubmittable p
unfolding checked_port
submittable s port preset text p named (same, e, q) =
    let (low, high) = between-bounds 1 65535 (coerce port) p.port e in
    record {
      named = sym (ap truthy same) ∙ named;
      trimmed = sym (ap trim same) ∙ (trim_idem s ∙ same);
      port_low = low;
      port_high = high;
      interval = checked_interval-bound preset text p.check_interval_seconds q;
    }

-- Whatever is typed, what the form submits has a trimmed hostname that is not empty, a port from 1
-- to 65535 and an interval of at least 60 seconds.
pub domain_payload-IsSubmittable :
    (values : DomainFormInput) (p : DomainPayload)
    → domain_payload values ≡ some p
    → IsSubmittable p
domain_payload-IsSubmittable values p h =
    let (named, parted) = payload-Parts values p h in
    submittable values.hostname values.port values.interval_preset values.custom_interval_seconds p
      named parted

natural-whole : (n : ℕ) → natural (decimal false n 0 0) ≡ some n
unfolding natural
natural-whole n = ground arith

-- A preset and a text are read as that interval.
abbrev Reads : ℕ → IntervalPreset × Text → Type 0
Reads n v = checked_interval v.0 v.1 ≡ some n

custom-Reads : (n : ℕ) → 60 ≤ n → Reads n (custom, to_decimal n)
unfolding checked_interval at_least
custom-Reads n h =
    rw
      (
        trim-digits (to_decimal n) (all_digits-to_decimal n),
        truthy-to_decimal n,
        js_number-to_decimal n,
        natural-whole n,
      )
      (ground (arith, h))

preset-Reads :
    (n k : ℕ) (p : IntervalPreset) (rest : IntervalPreset × Text)
    → preset_seconds p ≡ some k
    → Reads n rest
    → Reads n (if n == k then (p, []) else rest)
unfolding checked_interval trim trim_start trim_end
preset-Reads n k p rest e h = elim (Bool-cases (n == k)) [
  | inl same ↦ rw same (e ∙ ap some (sym ((==_iff n k).0 same)))
  | inr other ↦ rw other h
]

preset_of-Reads : (n : ℕ) → 60 ≤ n → Reads n (preset_of n)
unfolding preset_of preset_seconds
preset_of-Reads n h = preset-Reads n 86400 one_day _ refl (
    preset-Reads n 259200 three_days _ refl (
      preset-Reads n 604800 seven_days _ refl (
        preset-Reads n 1209600 fourteen_days _ refl
          (preset-Reads n 2592000 thirty_days _ refl (custom-Reads n h)))))

preset_for_interval-Reads : (n : ℕ) → 60 ≤ n → Reads n (preset_for_interval (some n))
unfolding preset_for_interval
preset_for_interval-Reads n h =
    let positive : (n == 0) ≡ false = ground (arith, h) in rw positive (preset_of-Reads n h)

payload_of :
    (values : DomainFormInput) (hostname address : Text) (port seconds : ℕ)
    → trim values.hostname ≡ hostname
    → truthy hostname ≡ true
    → trim values.target_ip ≡ address
    → checked_port values.port ≡ some port
    → Reads seconds (values.interval_preset, values.custom_interval_seconds)
    → domain_payload values
      ≡ some (record {
        hostname = hostname;
        port = port;
        target_ip = address;
        enabled = values.enabled;
        check_interval_seconds = seconds;
      })
unfolding domain_payload assemble
payload_of values hostname address port seconds a b c d e = rw (a, b, c, d, e) refl

checked_port-number : (n : ℕ) → 1 ≤ n → n ≤ 65535 → checked_port (number n) ≡ some n
unfolding checked_port coerce between
checked_port-number n low high = ground (arith, low, high)

-- Of a domain with a trimmed hostname that is not empty, a trimmed address, a port from 1 to 65535
-- and an interval from 60 seconds, submitting the form as it was opened passes on the domain's own
-- hostname, port, address, state and interval.
pub domain_payload-default_values :
    (d : ApiDomain)
    → truthy d.hostname ≡ true
    → trim d.hostname ≡ d.hostname
    → trim (d.target_ip or []) ≡ (d.target_ip or [])
    → 1 ≤ d.port
    → d.port ≤ 65535
    → 60 ≤ d.check_interval_seconds
    → domain_payload (default_values (some d))
      ≡ some (record {
        hostname = d.hostname;
        port = d.port;
        target_ip = d.target_ip or [];
        enabled = d.enabled;
        check_interval_seconds = d.check_interval_seconds;
      })
unfolding default_values
domain_payload-default_values d named trimmed address low high long =
    payload_of (default_values (some d)) d.hostname (d.target_ip or []) d.port
      d.check_interval_seconds trimmed named address (checked_port-number d.port low high)
      (preset_for_interval-Reads d.check_interval_seconds long)
