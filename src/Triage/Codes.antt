-- ===== src/Triage/Codes.antt =====
-- triage/codes.py: the selected status and reason codes.
use airtrace.Prelude.{ℕ, List, [], ◌∷◌}
use airtrace.Text.Base.{Text, codes}

-- `STATUS`
abbrev pub status_codes : List (ℕ × Text)
status_codes =
    (0, codes "Successful")
    ∷ (1, codes "Unspecified failure")
    ∷ (10, codes "Cannot support all requested capabilities")
    ∷ (13, codes "Authentication algorithm not supported")
    ∷ (14, codes "Unknown authentication transaction number")
    ∷ (15, codes "Challenge failure")
    ∷ (16, codes "Authentication timeout")
    ∷ (17, codes "AP unable to handle additional associated stations")
    ∷ (18, codes "Association denied: unsupported basic rates")
    ∷ (30, codes "Association rejected temporarily")
    ∷ (31, codes "Robust management frame policy violation")
    ∷ (40, codes "Invalid information element")
    ∷ (41, codes "Invalid group cipher")
    ∷ (42, codes "Invalid pairwise cipher")
    ∷ (43, codes "Invalid AKMP")
    ∷ (44, codes "Unsupported RSN information element version")
    ∷ (45, codes "Invalid RSN information element capabilities")
    ∷ (46, codes "Cipher suite rejected by security policy")
    ∷ (76, codes "Anti-clogging token required")
    ∷ (77, codes "Finite cyclic group not supported")
    ∷ []

-- `REASON`
abbrev pub reason_codes : List (ℕ × Text)
reason_codes =
    (1, codes "Unspecified reason")
    ∷ (2, codes "Previous authentication no longer valid")
    ∷ (3, codes "Sending station is leaving the IBSS or ESS")
    ∷ (4, codes "Disassociated due to inactivity")
    ∷ (5, codes "AP unable to handle all currently associated stations")
    ∷ (6, codes "Class 2 frame received from nonauthenticated station")
    ∷ (7, codes "Class 3 frame received from nonassociated station")
    ∷ (8, codes "Sending station is leaving the BSS")
    ∷ (9, codes "Station requesting association is not authenticated")
    ∷ (14, codes "MIC failure")
    ∷ (15, codes "Four-way handshake timeout")
    ∷ (16, codes "Group key handshake timeout")
    ∷ (17, codes "Information element differs from association exchange")
    ∷ (18, codes "Invalid group cipher")
    ∷ (19, codes "Invalid pairwise cipher")
    ∷ (20, codes "Invalid AKMP")
    ∷ (23, codes "IEEE 802.1X authentication failed")
    ∷ (24, codes "Cipher suite rejected by security policy")
    ∷ []
