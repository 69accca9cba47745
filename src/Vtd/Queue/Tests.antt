-- ===== src/Vtd/Queue/Tests.antt =====
-- A request on a queue whose tail stands at the end of its page.
use spy.Base.{◌≡◌, refl, arith, some, none, [], ◌∷◌, replicate, ◌==◌}
use spy.Vtd.{Entry, no_entry}
use spy.Vtd.Queue.{InvUnit, Hardware, submit_iq_request, flush_domain_caches}
use spy.Vtd.Queue.Submit.{IsReady, Submitted, submit_iq_request-Submitted}

-- A unit that reports completion at its third poll.
abbrev third : Hardware
third = record { completed = λ _ n. n == 2; completed_phys = 0x1000; polls = 5 }

abbrev last : InvUnit
last = record { queue = replicate 256 no_entry; tail = 255 }

abbrev request : Entry
request = record { lo_word = 0x11; hi_word = 0 }

last-IsReady : IsReady last
last-IsReady = record { full_page = refl; in_page = omega arith }

submit_iq_request-Submitted_example :
    (unit' : InvUnit) × (submit_iq_request third last (some request) ≡ some unit')
    × Submitted third last request unit'
submit_iq_request-Submitted_example =
    submit_iq_request-Submitted third last request 2 last-IsReady (omega arith) refl

-- Flushing domain 3 leaves two requests with their waits, and a queue on which the hardware never
-- answers does not return.
flush_runs :
    (flush_domain_caches third 3 (record last { tail = 0 } ∷ [])
      ≡ some (
          record {
            queue =
                record { lo_word = 0x30021; hi_word = 0 }
                ∷ record { lo_word = 0x100000065; hi_word = 0x1000 }
                ∷ record { lo_word = 0x300e2; hi_word = 0 }
                ∷ record { lo_word = 0x100000065; hi_word = 0x1000 }
                ∷ replicate 252 no_entry;
            tail = 4;
          }
          ∷ []))
    × (submit_iq_request (record third { polls = 2 }) last (some request) ≡ none)
unfolding flush_domain_caches
flush_runs = (refl, refl)
