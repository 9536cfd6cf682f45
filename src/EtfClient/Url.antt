-- ===== src/EtfClient/Url.antt =====
-- The host and the port that etf_client.cpp takes from the address of the service.
use hftalgorithms.Base.{◌≡◌, refl, [], ◌++◌}
use hftalgorithms.Base.Text.{Text, codes, strip, find}
use hftalgorithms.Base.Text.Search.{Lacks, find-skip}
use mathlib.Core.List.{append-nil}
use hftalgorithms.EtfClient.{parse_base_url}

-- `http://host:port` gives back the host and the port, for every host without a colon; what follows
-- the first colon is the port, whatever it is.
parse_base_url-round_trip :
    (host port : Text)
    → Lacks b':' host
    → parse_base_url (codes "http://" ++ (host ++ (codes ":" ++ port))) ≡ (host, port)
unfolding parse_base_url strip
parse_base_url-round_trip host port h =
    rw
      (
        find-skip b':' [] host (codes ":" ++ port) [] port h (unfold find in refl),
        append-nil host,
        parse_base_url,
      )
      refl
