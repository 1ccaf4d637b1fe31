-- ===== src/Storage/Key.antt =====
-- The keys of a stored record, of attribution/storage.go.
use cloudip.Base.{Text, codes}

abbrev pub provider : Text
provider = codes "provider"

abbrev pub region : Text
region = codes "region"

abbrev pub services : Text
services = codes "services"

abbrev pub categories : Text
categories = codes "categories"

abbrev pub ipv6 : Text
ipv6 = codes "ipv6"

abbrev pub source : Text
source = codes "source"

abbrev pub synced_at : Text
synced_at = codes "synced_at"

abbrev pub ext : Text
ext = codes "ext"
