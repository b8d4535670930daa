-- ===== src/Call/Statistics.antt =====
-- The statistics of a call (apps/call-core/src/call-core.js: sample). Times are whole microseconds, and the
-- audio energy counts in a unit of its own; a field that a report leaves out is `none`.
use cads_agent_marketplace.Common.{
  List, Option, [], arith, if◌then◌else◌, list_beq, nat_eq, none, some, ℕ, ◌+◌, ◌/◌, ◌∷◌, ◌≡◌,
}

abbrev pub Name : Type 0
Name = List ℕ

-- One report of getStats.
pub data Report : Type 0 where
  -- bytesReceived, packetsReceived, packetsLost, framesDecoded, totalAudioEnergy
  inbound : Option ℕ → Option ℕ → Option ℕ → Option ℕ → Option ℕ → Report
  -- bytesSent
  outbound : Option ℕ → Report
  -- selectedCandidatePairId
  transport : Option Name → Report
  -- localCandidateId, remoteCandidateId, currentRoundTripTime
  candidate_pair : Option Name → Option Name → Option ℕ → Report
  -- candidateType, protocol, relayProtocol, address
  candidate : Option Name → Option Name → Option Name → Option Name → Report
  other_report : Report

pub record Link : Type 0 where
  pub local_type : Option Name
  pub remote_type : Option Name
  pub protocol : Option Name
  pub relay_protocol : Option Name
  pub local_ip : Option Name
  pub rtt_ms : Option ℕ

pub record Sample : Type 0 where
  pub bytes_sent : ℕ
  pub bytes_received : ℕ
  pub packets_received : ℕ
  pub packets_lost : ℕ
  pub frames_decoded : ℕ
  pub audio_energy : ℕ
  pub link : Option Link

abbrev pub or_none : Option ℕ → ℕ
or_none none = 0
or_none (some n) = n

-- `byId.get(id)`: a later report of the same name takes the place of an earlier one.
abbrev pub report_at : List (Name × Report) → Name → Option Report
report_at [] k = none
report_at ((j, r) ∷ rs) k =
    let rest = report_at rs k in
    let here = if list_beq ⦃e = nat_eq⦄ j k then some r else none in
    elim rest [ some x ↦ some x | none ↦ here ]

abbrev pub report_of : List (Name × Report) → Option Name → Option Report
report_of rs none = none
report_of rs (some k) = report_at rs k

abbrev pub no_sample : Sample
no_sample = record {
  bytes_sent = 0;
  bytes_received = 0;
  packets_received = 0;
  packets_lost = 0;
  frames_decoded = 0;
  audio_energy = 0;
  link = none;
}

-- What one report adds to the sums.
abbrev pub add_report : Report → Sample → Sample
add_report (inbound b p l f a) s = record s {
  bytes_received = s.bytes_received + or_none b;
  packets_received = s.packets_received + or_none p;
  packets_lost = s.packets_lost + or_none l;
  frames_decoded = s.frames_decoded + or_none f;
  audio_energy = s.audio_energy + or_none a;
}
add_report (outbound b) s = record s { bytes_sent = s.bytes_sent + or_none b }
add_report (transport t) s = s
add_report (candidate_pair l r t) s = s
add_report (candidate t p r a) s = s
add_report other_report s = s

abbrev pub add_reports : List (Name × Report) → Sample → Sample
add_reports [] s = s
add_reports ((k, r) ∷ rs) s = add_reports rs (add_report r s)

-- The pair that the last transport with a selected pair names.
abbrev pub selects : Report → Option Name → Option Name
selects (transport (some [])) d = d
selects (transport (some (c ∷ cs))) d = some (c ∷ cs)
selects _ d = d

abbrev pub selected_name : List (Name × Report) → Option Name → Option Name
selected_name [] d = d
selected_name ((k, r) ∷ rs) d = selected_name rs (selects r d)

abbrev pub ends_of : Report → Option Name × Option Name
ends_of (candidate_pair l r t) = (l, r)
ends_of _ = (none, none)

abbrev pub rtt_of : Report → Option ℕ
rtt_of (candidate_pair l r (some t)) = some ((t + 500) / 1000)
rtt_of _ = none

abbrev pub type_of : Option Report → Option Name
type_of (some (candidate t p r a)) = t
type_of _ = none

abbrev pub with_local : Option Report → Option Report → Option ℕ → Link
with_local (some (candidate t p r a)) remote rtt = record {
  local_type = t;
  remote_type = type_of remote;
  protocol = p;
  relay_protocol = r;
  local_ip = a;
  rtt_ms = rtt;
}
with_local _ remote rtt = record {
  local_type = none;
  remote_type = type_of remote;
  protocol = none;
  relay_protocol = none;
  local_ip = none;
  rtt_ms = rtt;
}

abbrev pub link_of : List (Name × Report) → Option Report → Option Link
link_of rs none = none
link_of rs (some r) =
    some (with_local (report_of rs (ends_of r).0) (report_of rs (ends_of r).1) (rtt_of r))

-- `sample`: of no connection, or of the reports that it gives.
unfoldable pub sample : Option (List (Name × Report)) → Sample
sample none = no_sample
sample (some rs) = record (add_reports rs no_sample) {
  link = link_of rs (report_of rs (selected_name rs none));
}

-- The packets are those of all streams that come in.
abbrev pub packets_in : List (Name × Report) → ℕ
packets_in [] = 0
packets_in ((k, inbound b p l f a) ∷ rs) = or_none p + packets_in rs
packets_in ((k, _) ∷ rs) = packets_in rs

add_reports-packets :
    (rs : List (Name × Report)) (s : Sample)
    → (add_reports rs s).packets_received ≡ s.packets_received + packets_in rs
add_reports-packets [] s = omega arith
add_reports-packets ((k, inbound b p l f a) ∷ rs) s =
    omega (arith, add_reports-packets rs (add_report (inbound b p l f a) s))
add_reports-packets ((k, outbound b) ∷ rs) s = add_reports-packets rs (add_report (outbound b) s)
add_reports-packets ((k, transport t) ∷ rs) s = add_reports-packets rs s
add_reports-packets ((k, candidate_pair l r t) ∷ rs) s = add_reports-packets rs s
add_reports-packets ((k, candidate t p r a) ∷ rs) s = add_reports-packets rs s
add_reports-packets ((k, other_report) ∷ rs) s = add_reports-packets rs s

sample-packets : (rs : List (Name × Report)) → (sample (some rs)).packets_received ≡ packets_in rs
unfolding sample
sample-packets rs = omega (arith, add_reports-packets rs no_sample)
