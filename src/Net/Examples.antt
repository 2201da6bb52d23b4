-- ===== src/Net/Examples.antt =====
-- A run of the theorem on base URLs.
use shelf_remote.Prelude.{none, [], codes}
use shelf_remote.Net.Endpoints.{Url}

abbrev typed : Url
typed = record {
  scheme = "https";
  host = "books";
  port = none;
  path = codes "/abs//";
  query = codes "x=1";
  fragment = [];
}
