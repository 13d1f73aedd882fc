-- ===== src/Info/Default/Ipfix1.antt =====
-- lib/InfoModel.cpp: a part of the table that InfoModel::defaultIPFIX adds, in its order.
use libfc.Prelude.{ℕ, List, [], ◌∷◌, codes}

abbrev pub ipfix_specs_1 : List (List ℕ)
ipfix_specs_1 =
    codes "octetDeltaCount(1)<unsigned64>[8]"
    ∷ codes "packetDeltaCount(2)<unsigned64>[8]"
    ∷ codes "deltaFlowCount(3)<unsigned64>[8]"
    ∷ codes "protocolIdentifier(4)<unsigned8>[1]"
    ∷ codes "ipClassOfService(5)<unsigned8>[1]"
    ∷ codes "tcpControlBits(6)<unsigned8>[1]"
    ∷ codes "sourceTransportPort(7)<unsigned16>[2]"
    ∷ codes "sourceIPv4Address(8)<ipv4Address>[4]"
    ∷ codes "sourceIPv4PrefixLength(9)<unsigned8>[1]"
    ∷ codes "ingressInterface(10)<unsigned32>[4]"
    ∷ codes "destinationTransportPort(11)<unsigned16>[2]"
    ∷ codes "destinationIPv4Address(12)<ipv4Address>[4]"
    ∷ codes "destinationIPv4PrefixLength(13)<unsigned8>[1]"
    ∷ codes "egressInterface(14)<unsigned32>[4]"
    ∷ codes "ipNextHopIPv4Address(15)<ipv4Address>[4]"
    ∷ codes "bgpSourceAsNumber(16)<unsigned32>[4]"
    ∷ codes "bgpDestinationAsNumber(17)<unsigned32>[4]"
    ∷ codes "bgpNextHopIPv4Address(18)<ipv4Address>[4]"
    ∷ codes "postMCastPacketDeltaCount(19)<unsigned64>[8]"
    ∷ codes "postMCastOctetDeltaCount(20)<unsigned64>[8]"
    ∷ codes "flowEndSysUpTime(21)<unsigned32>[4]"
    ∷ codes "flowStartSysUpTime(22)<unsigned32>[4]"
    ∷ codes "postOctetDeltaCount(23)<unsigned64>[8]"
    ∷ codes "postPacketDeltaCount(24)<unsigned64>[8]"
    ∷ codes "minimumIpTotalLength(25)<unsigned64>[8]"
    ∷ codes "maximumIpTotalLength(26)<unsigned64>[8]"
    ∷ codes "sourceIPv6Address(27)<ipv6Address>[16]"
    ∷ codes "destinationIPv6Address(28)<ipv6Address>[16]"
    ∷ codes "sourceIPv6PrefixLength(29)<unsigned8>[1]"
    ∷ codes "destinationIPv6PrefixLength(30)<unsigned8>[1]"
    ∷ codes "flowLabelIPv6(31)<unsigned32>[4]"
    ∷ codes "icmpTypeCodeIPv4(32)<unsigned16>[2]"
    ∷ codes "igmpType(33)<unsigned8>[1]"
    ∷ codes "flowActiveTimeout(36)<unsigned16>[2]"
    ∷ codes "flowIdleTimeout(37)<unsigned16>[2]"
    ∷ codes "exportedOctetTotalCount(40)<unsigned64>[8]"
    ∷ codes "exportedMessageTotalCount(41)<unsigned64>[8]"
    ∷ codes "exportedFlowRecordTotalCount(42)<unsigned64>[8]"
    ∷ codes "sourceIPv4Prefix(44)<ipv4Address>[4]"
    ∷ codes "destinationIPv4Prefix(45)<ipv4Address>[4]"
    ∷ codes "mplsTopLabelType(46)<unsigned8>[1]"
    ∷ codes "mplsTopLabelIPv4Address(47)<ipv4Address>[4]"
    ∷ codes "samplerId(48)<unsigned8>"
    ∷ codes "classId(51)<unsigned8>"
    ∷ codes "minimumTTL(52)<unsigned8>[1]"
    ∷ codes "maximumTTL(53)<unsigned8>[1]"
    ∷ codes "fragmentIdentification(54)<unsigned32>[4]"
    ∷ codes "postIpClassOfService(55)<unsigned8>[1]"
    ∷ codes "sourceMacAddress(56)<macAddress>[6]"
    ∷ codes "postDestinationMacAddress(57)<macAddress>[6]"
    ∷ codes "vlanId(58)<unsigned16>[2]"
    ∷ codes "postVlanId(59)<unsigned16>[2]"
    ∷ codes "ipVersion(60)<unsigned8>[1]"
    ∷ codes "flowDirection(61)<unsigned8>[1]"
    ∷ codes "ipNextHopIPv6Address(62)<ipv6Address>[16]"
    ∷ codes "bgpNextHopIPv6Address(63)<ipv6Address>[16]"
    ∷ codes "ipv6ExtensionHeaders(64)<unsigned32>[4]"
    ∷ codes "mplsTopLabelStackSection(70)<octetArray>[65535]"
    ∷ codes "mplsLabelStackSection2(71)<octetArray>[65535]"
    ∷ codes "mplsLabelStackSection3(72)<octetArray>[65535]"
    ∷ codes "mplsLabelStackSection4(73)<octetArray>[65535]"
    ∷ codes "mplsLabelStackSection5(74)<octetArray>[65535]"
    ∷ codes "mplsLabelStackSection6(75)<octetArray>[65535]"
    ∷ codes "mplsLabelStackSection7(76)<octetArray>[65535]"
    ∷ codes "mplsLabelStackSection8(77)<octetArray>[65535]"
    ∷ codes "mplsLabelStackSection9(78)<octetArray>[65535]"
    ∷ codes "mplsLabelStackSection10(79)<octetArray>[65535]"
    ∷ codes "destinationMacAddress(80)<macAddress>[6]"
    ∷ codes "postSourceMacAddress(81)<macAddress>[6]"
    ∷ codes "interfaceName(82)<string>[65535]"
    ∷ codes "interfaceDescription(83)<string>[65535]"
    ∷ codes "octetTotalCount(85)<unsigned64>[8]"
    ∷ codes "packetTotalCount(86)<unsigned64>[8]"
    ∷ codes "fragmentOffset(88)<unsigned16>[2]"
    ∷ codes "mplsVpnRouteDistinguisher(90)<octetArray>[65535]"
    ∷ codes "mplsTopLabelPrefixLength(91)<unsigned8>[1]"
    ∷ codes "applicationDescription(94)<string>[65535]"
    ∷ codes "applicationId(95)<octetArray>[65535]"
    ∷ codes "applicationName(96)<string>[65535]"
    ∷ codes "postIpDiffServCodePoint(98)<unsigned8>[1]"
    ∷ codes "multicastReplicationFactor(99)<unsigned32>[4]"
    ∷ codes "classificationEngineId(101)<unsigned8>[1]"
    ∷ codes "bgpNextAdjacentAsNumber(128)<unsigned32>[4]"
    ∷ codes "bgpPrevAdjacentAsNumber(129)<unsigned32>[4]"
    ∷ codes "exporterIPv4Address(130)<ipv4Address>[4]"
    ∷ codes "exporterIPv6Address(131)<ipv6Address>[16]"
    ∷ codes "droppedOctetDeltaCount(132)<unsigned64>[8]"
    ∷ codes "droppedPacketDeltaCount(133)<unsigned64>[8]"
    ∷ codes "droppedOctetTotalCount(134)<unsigned64>[8]"
    ∷ codes "droppedPacketTotalCount(135)<unsigned64>[8]"
    ∷ codes "flowEndReason(136)<unsigned8>[1]"
    ∷ codes "commonPropertiesId(137)<unsigned64>[8]"
    ∷ codes "observationPointId(138)<unsigned64>[8]"
    ∷ codes "icmpTypeCodeIPv6(139)<unsigned16>[2]"
    ∷ codes "mplsTopLabelIPv6Address(140)<ipv6Address>[16]"
    ∷ codes "lineCardId(141)<unsigned32>[4]"
    ∷ codes "portId(142)<unsigned32>[4]"
    ∷ codes "meteringProcessId(143)<unsigned32>[4]"
    ∷ codes "exportingProcessId(144)<unsigned32>[4]"
    ∷ codes "templateId(145)<unsigned16>[2]"
    ∷ codes "wlanChannelId(146)<unsigned8>[1]"
    ∷ codes "wlanSSID(147)<string>[65535]"
    ∷ codes "flowId(148)<unsigned64>[8]"
    ∷ codes "observationDomainId(149)<unsigned32>[4]"
    ∷ codes "flowStartSeconds(150)<dateTimeSeconds>[4]"
    ∷ codes "flowEndSeconds(151)<dateTimeSeconds>[4]"
    ∷ codes "flowStartMilliseconds(152)<dateTimeMilliseconds>[8]"
    ∷ codes "flowEndMilliseconds(153)<dateTimeMilliseconds>[8]"
    ∷ codes "flowStartMicroseconds(154)<dateTimeMicroseconds>"
    ∷ codes "flowEndMicroseconds(155)<dateTimeMicroseconds>"
    ∷ codes "flowStartNanoseconds(156)<dateTimeNanoseconds>"
    ∷ codes "flowEndNanoseconds(157)<dateTimeNanoseconds>"
    ∷ codes "flowStartDeltaMicroseconds(158)<unsigned32>[4]"
    ∷ codes "flowEndDeltaMicroseconds(159)<unsigned32>[4]"
    ∷ codes "systemInitTimeMilliseconds(160)<dateTimeMilliseconds>[8]"
    ∷ codes "flowDurationMilliseconds(161)<unsigned32>[4]"
    ∷ codes "flowDurationMicroseconds(162)<unsigned32>[4]"
    ∷ codes "observedFlowTotalCount(163)<unsigned64>[8]"
    ∷ codes "ignoredPacketTotalCount(164)<unsigned64>[8]"
    ∷ codes "ignoredOctetTotalCount(165)<unsigned64>[8]"
    ∷ codes "notSentFlowTotalCount(166)<unsigned64>[8]"
    ∷ codes "notSentPacketTotalCount(167)<unsigned64>[8]"
    ∷ codes "notSentOctetTotalCount(168)<unsigned64>[8]"
    ∷ codes "destinationIPv6Prefix(169)<ipv6Address>[16]"
    ∷ codes "sourceIPv6Prefix(170)<ipv6Address>[16]"
    ∷ codes "postOctetTotalCount(171)<unsigned64>[8]"
    ∷ codes "postPacketTotalCount(172)<unsigned64>[8]"
    ∷ []
