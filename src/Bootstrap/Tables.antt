-- ===== src/Bootstrap/Tables.antt =====
-- The tables stealthSeeds and ccTLDWHOISServers of src/internal/monitor/constants.go.
use domain_monitor.Base.{List, [], ◌∷◌, Map}
use domain_monitor.Text.{Text, codes}

abbrev pub rdap_identity_digital_url : Text
rdap_identity_digital_url = codes "https://rdap.identitydigital.services/rdap/"

abbrev pub rdap_google_registry_url : Text
rdap_google_registry_url = codes "https://rdap.nic.google/"

unfoldable pub stealth_seeds : List (Text × List Text)
stealth_seeds =
    (codes "ac", rdap_identity_digital_url ∷ [])
    ∷ (codes "af", codes "https://whois.nic.af/" ∷ [])
    ∷ (codes "ag", rdap_identity_digital_url ∷ [])
    ∷ (codes "ai", codes "https://rdap.nic.ai/" ∷ [])
    ∷ (codes "am", codes "https://rdap.amnic.net/" ∷ [])
    ∷ (codes "app", rdap_google_registry_url ∷ [])
    ∷ (codes "arpa", codes "https://rdap.iana.org/" ∷ [])
    ∷ (codes "aw", codes "https://rdap.nic.aw/" ∷ [])
    ∷ (codes "bh", codes "https://rdap.centralnic.com/bh/" ∷ [])
    ∷ (codes "bw", codes "https://rdap.nic.net.bw/" ∷ [])
    ∷ (codes "bz", rdap_identity_digital_url ∷ [])
    ∷ (codes "ca", codes "https://rdap.ca.fury.ca/rdap/" ∷ [])
    ∷ (codes "ch", codes "https://rdap.nic.ch/" ∷ [])
    ∷ (codes "ci", codes "https://rdap.nic.ci/" ∷ [])
    ∷ (codes "co", codes "https://rdap.registry.co/co/" ∷ [])
    ∷ (codes "de", codes "https://rdap.denic.de/" ∷ [])
    ∷ (codes "dev", rdap_google_registry_url ∷ [])
    ∷ (codes "dm", codes "https://rdap.dmdomains.dm/rdap/" ∷ [])
    ∷ (codes "eu", codes "https://rdap.eurid.eu/" ∷ [])
    ∷ (codes "fr", codes "https://rdap.nic.fr/" ∷ [])
    ∷ (codes "ga", codes "https://rdap.nic.ga/" ∷ [])
    ∷ (codes "gi", rdap_identity_digital_url ∷ [])
    ∷ (codes "gl", codes "https://rdap.centralnic.com/gl/" ∷ [])
    ∷ (codes "in", codes "https://rdap.registry.in/" ∷ [])
    ∷ (codes "io", rdap_identity_digital_url ∷ [])
    ∷ (codes "iq", codes "https://rdap.reg.iq/rdap/" ∷ [])
    ∷ (codes "is", codes "https://rdap.isnic.is/rdap/" ∷ [])
    ∷ (codes "it", codes "https://rdap.nic.it/" ∷ [])
    ∷ (codes "jp", codes "https://rdap.jprs.jp/" ∷ [])
    ∷ (codes "ki", codes "https://rdap.coccaregistry.org/" ∷ [])
    ∷ (codes "kz", codes "https://rdap.nic.kz/" ∷ [])
    ∷ (codes "lc", rdap_identity_digital_url ∷ [])
    ∷ (codes "li", codes "https://rdap.nic.li/" ∷ [])
    ∷ (codes "me", rdap_identity_digital_url ∷ [])
    ∷ (codes "mn", rdap_identity_digital_url ∷ [])
    ∷ (codes "mr", codes "https://rdap.nic.mr/" ∷ [])
    ∷ (codes "mx", codes "https://rdap.nic.mx/" ∷ [])
    ∷ (codes "my", codes "https://rdap.mynic.my/rdap/" ∷ [])
    ∷ (codes "mz", codes "https://rdap.nic.mz/" ∷ [])
    ∷ (codes "nl", codes "https://rdap.sidn.nl/" ∷ [])
    ∷ (codes "nu", codes "https://rdap.iis.nu/" ∷ [])
    ∷ (codes "nz", codes "https://rdap.internetnz.nz/" ∷ [])
    ∷ (codes "om", codes "https://rdap.registry.om/" ∷ [])
    ∷ (codes "page", rdap_google_registry_url ∷ [])
    ∷ (codes "pl", codes "https://rdap.dns.pl/" ∷ [])
    ∷ (codes "pr", rdap_identity_digital_url ∷ [])
    ∷ (codes "ru", codes "https://cctld.ru/tci-ripn-rdap/" ∷ [])
    ∷ (codes "sb", codes "https://rdap.nic.sb/" ∷ [])
    ∷ (codes "sc", rdap_identity_digital_url ∷ [])
    ∷ (codes "se", codes "https://rdap.iis.se/" ∷ [])
    ∷ (codes "sh", rdap_identity_digital_url ∷ [])
    ∷ (codes "sk", codes "https://rdap.sk-nic.sk/sk/" ∷ [])
    ∷ (codes "so", codes "https://rdap.nic.so/" ∷ [])
    ∷ (codes "td", codes "https://rdap.nic.td/" ∷ [])
    ∷ (codes "tl", codes "https://rdap.nic.tl/" ∷ [])
    ∷ (codes "ua", codes "https://rdap.hostmaster.ua/" ∷ [])
    ∷ (codes "uk", codes "https://rdap.nominet.uk/" ∷ [])
    ∷ (codes "us", codes "https://rdap.nic.us/" ∷ [])
    ∷ (codes "uz", codes "https://rdap.cctld.uz/" ∷ [])
    ∷ (codes "vc", rdap_identity_digital_url ∷ [])
    ∷ (codes "ve", codes "https://rdap.nic.ve/rdap/" ∷ [])
    ∷ (codes "vu", codes "https://rdap.dnrs.vu/" ∷ [])
    ∷ (codes "ws", codes "https://rdap.website.ws/" ∷ [])
    ∷ (codes "xn--kprw13d", codes "https://ccrdap.twnic.tw/taiwan/" ∷ [])
    ∷ (codes "xn--mgbcpq6gpa1a", codes "https://rdap.centralnic.com/xn--mgbcpq6gpa1a/" ∷ [])
    ∷ (codes "xn--p1ai", codes "https://cctld.ru/tci-ripn-rdap/" ∷ [])
    ∷ (codes "za", codes "https://rdap.registry.net.za/" ∷ [])
    ∷ []

unfoldable pub cctld_whois_servers : Map Text Text
cctld_whois_servers =
    (codes "ai", codes "whois.nic.ai")
    ∷ (codes "au", codes "whois.auda.org.au")
    ∷ (codes "ca", codes "whois.cira.ca")
    ∷ (codes "ch", codes "whois.nic.ch")
    ∷ (codes "co", codes "whois.nic.co")
    ∷ (codes "co.uk", codes "whois.nominet.uk")
    ∷ (codes "de", codes "whois.denic.de")
    ∷ (codes "eu", codes "whois.eu")
    ∷ (codes "fr", codes "whois.nic.fr")
    ∷ (codes "in", codes "whois.inregistry.net")
    ∷ (codes "io", codes "whois.nic.io")
    ∷ (codes "is", codes "whois.isnic.is")
    ∷ (codes "it", codes "whois.nic.it")
    ∷ (codes "jp", codes "whois.jprs.jp")
    ∷ (codes "me", codes "whois.nic.me")
    ∷ (codes "mx", codes "whois.mx")
    ∷ (codes "nl", codes "whois.domain-registry.nl")
    ∷ (codes "nz", codes "whois.srs.net.nz")
    ∷ (codes "pl", codes "whois.dns.pl")
    ∷ (codes "ru", codes "whois.tcinet.ru")
    ∷ (codes "se", codes "whois.iis.se")
    ∷ (codes "tv", codes "tvwhois.verisign-grs.com")
    ∷ (codes "uk", codes "whois.nominet.uk")
    ∷ (codes "us", codes "whois.nic.us")
    ∷ (codes "za", codes "whois.registry.net.za")
    ∷ []
