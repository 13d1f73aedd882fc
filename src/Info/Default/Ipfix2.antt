-- ===== src/Info/Default/Ipfix2.antt =====
-- lib/InfoModel.cpp: a part of the table that InfoModel::defaultIPFIX adds, in its order.
use libfc.Prelude.{ℕ, List, [], ◌∷◌, codes}

abbrev pub ipfix_specs_2 : List (List ℕ)
ipfix_specs_2 =
    codes "flowKeyIndicator(173)<unsigned64>[8]"
    ∷ codes "postMCastPacketTotalCount(174)<unsigned64>[8]"
    ∷ codes "postMCastOctetTotalCount(175)<unsigned64>[8]"
    ∷ codes "icmpTypeIPv4(176)<unsigned8>[1]"
    ∷ codes "icmpCodeIPv4(177)<unsigned8>[1]"
    ∷ codes "icmpTypeIPv6(178)<unsigned8>[1]"
    ∷ codes "icmpCodeIPv6(179)<unsigned8>[1]"
    ∷ codes "udpSourcePort(180)<unsigned16>[2]"
    ∷ codes "udpDestinationPort(181)<unsigned16>[2]"
    ∷ codes "tcpSourcePort(182)<unsigned16>[2]"
    ∷ codes "tcpDestinationPort(183)<unsigned16>[2]"
    ∷ codes "tcpSequenceNumber(184)<unsigned32>[4]"
    ∷ codes "tcpAcknowledgementNumber(185)<unsigned32>[4]"
    ∷ codes "tcpWindowSize(186)<unsigned16>[2]"
    ∷ codes "tcpUrgentPointer(187)<unsigned16>[2]"
    ∷ codes "tcpHeaderLength(188)<unsigned8>[1]"
    ∷ codes "ipHeaderLength(189)<unsigned8>[1]"
    ∷ codes "totalLengthIPv4(190)<unsigned16>[2]"
    ∷ codes "payloadLengthIPv6(191)<unsigned16>[2]"
    ∷ codes "ipTTL(192)<unsigned8>[1]"
    ∷ codes "nextHeaderIPv6(193)<unsigned8>[1]"
    ∷ codes "mplsPayloadLength(194)<unsigned32>[4]"
    ∷ codes "ipDiffServCodePoint(195)<unsigned8>[1]"
    ∷ codes "ipPrecedence(196)<unsigned8>[1]"
    ∷ codes "fragmentFlags(197)<unsigned8>[1]"
    ∷ codes "octetDeltaSumOfSquares(198)<unsigned64>[8]"
    ∷ codes "octetTotalSumOfSquares(199)<unsigned64>[8]"
    ∷ codes "mplsTopLabelTTL(200)<unsigned8>[1]"
    ∷ codes "mplsLabelStackLength(201)<unsigned32>[4]"
    ∷ codes "mplsLabelStackDepth(202)<unsigned32>[4]"
    ∷ codes "mplsTopLabelExp(203)<unsigned8>[1]"
    ∷ codes "ipPayloadLength(204)<unsigned32>[4]"
    ∷ codes "udpMessageLength(205)<unsigned16>[2]"
    ∷ codes "isMulticast(206)<unsigned8>[1]"
    ∷ codes "ipv4IHL(207)<unsigned8>[1]"
    ∷ codes "ipv4Options(208)<unsigned32>[4]"
    ∷ codes "tcpOptions(209)<unsigned64>[8]"
    ∷ codes "paddingOctets(210)<octetArray>[65535]"
    ∷ codes "collectorIPv4Address(211)<ipv4Address>[4]"
    ∷ codes "collectorIPv6Address(212)<ipv6Address>[16]"
    ∷ codes "exportInterface(213)<unsigned32>[4]"
    ∷ codes "exportProtocolVersion(214)<unsigned8>[1]"
    ∷ codes "exportTransportProtocol(215)<unsigned8>[1]"
    ∷ codes "collectorTransportPort(216)<unsigned16>[2]"
    ∷ codes "exporterTransportPort(217)<unsigned16>[2]"
    ∷ codes "tcpSynTotalCount(218)<unsigned64>[8]"
    ∷ codes "tcpFinTotalCount(219)<unsigned64>[8]"
    ∷ codes "tcpRstTotalCount(220)<unsigned64>[8]"
    ∷ codes "tcpPshTotalCount(221)<unsigned64>[8]"
    ∷ codes "tcpAckTotalCount(222)<unsigned64>[8]"
    ∷ codes "tcpUrgTotalCount(223)<unsigned64>[8]"
    ∷ codes "ipTotalLength(224)<unsigned64>[8]"
    ∷ codes "postNATSourceIPv4Address(225)<ipv4Address>[4]"
    ∷ codes "postNATDestinationIPv4Address(226)<ipv4Address>[4]"
    ∷ codes "postNAPTSourceTransportPort(227)<unsigned16>[2]"
    ∷ codes "postNAPTDestinationTransportPort(228)<unsigned16>[2]"
    ∷ codes "natOriginatingAddressRealm(229)<unsigned8>[1]"
    ∷ codes "natEvent(230)<unsigned8>[1]"
    ∷ codes "initiatorOctets(231)<unsigned64>[8]"
    ∷ codes "responderOctets(232)<unsigned64>[8]"
    ∷ codes "firewallEvent(233)<unsigned8>[1]"
    ∷ codes "ingressVRFID(234)<unsigned32>[4]"
    ∷ codes "egressVRFID(235)<unsigned32>[4]"
    ∷ codes "VRFname(236)<string>[65535]"
    ∷ codes "postMplsTopLabelExp(237)<unsigned8>[1]"
    ∷ codes "tcpWindowScale(238)<unsigned16>[2]"
    ∷ codes "biflowDirection(239)<unsigned8>[1]"
    ∷ codes "ethernetHeaderLength(240)<unsigned8>[1]"
    ∷ codes "ethernetPayloadLength(241)<unsigned16>[2]"
    ∷ codes "ethernetTotalLength(242)<unsigned16>[2]"
    ∷ codes "dot1qVlanId(243)<unsigned16>[2]"
    ∷ codes "dot1qPriority(244)<unsigned8>[1]"
    ∷ codes "dot1qCustomerVlanId(245)<unsigned16>[2]"
    ∷ codes "dot1qCustomerPriority(246)<unsigned8>[1]"
    ∷ codes "metroEvcId(247)<string>[65535]"
    ∷ codes "metroEvcType(248)<unsigned8>[1]"
    ∷ codes "pseudoWireId(249)<unsigned32>[4]"
    ∷ codes "pseudoWireType(250)<unsigned16>[2]"
    ∷ codes "pseudoWireControlWord(251)<unsigned32>[4]"
    ∷ codes "ingressPhysicalInterface(252)<unsigned32>[4]"
    ∷ codes "egressPhysicalInterface(253)<unsigned32>[4]"
    ∷ codes "postDot1qVlanId(254)<unsigned16>[2]"
    ∷ codes "postDot1qCustomerVlanId(255)<unsigned16>[2]"
    ∷ codes "ethernetType(256)<unsigned16>[2]"
    ∷ codes "postIpPrecedence(257)<unsigned8>[1]"
    ∷ codes "collectionTimeMilliseconds(258)<dateTimeMilliseconds>[8]"
    ∷ codes "exportSctpStreamId(259)<unsigned16>[2]"
    ∷ codes "maxExportSeconds(260)<dateTimeSeconds>[4]"
    ∷ codes "maxFlowEndSeconds(261)<dateTimeSeconds>[4]"
    ∷ codes "messageMD5Checksum(262)<octetArray>[65535]"
    ∷ codes "messageScope(263)<unsigned8>[1]"
    ∷ codes "minExportSeconds(264)<dateTimeSeconds>[4]"
    ∷ codes "minFlowStartSeconds(265)<dateTimeSeconds>[4]"
    ∷ codes "opaqueOctets(266)<octetArray>[65535]"
    ∷ codes "sessionScope(267)<unsigned8>[1]"
    ∷ codes "maxFlowEndMicroseconds(268)<dateTimeMicroseconds>"
    ∷ codes "maxFlowEndMilliseconds(269)<dateTimeMilliseconds>[8]"
    ∷ codes "maxFlowEndNanoseconds(270)<dateTimeNanoseconds>"
    ∷ codes "minFlowStartMicroseconds(271)<dateTimeMicroseconds>"
    ∷ codes "minFlowStartMilliseconds(272)<dateTimeMilliseconds>"
    ∷ codes "minFlowStartNanoseconds(273)<dateTimeNanoseconds>"
    ∷ codes "collectorCertificate(274)<octetArray>[65535]"
    ∷ codes "exporterCertificate(275)<octetArray>[65535]"
    ∷ codes "dataRecordsReliability(276)<boolean>[1]"
    ∷ codes "observationPointType(277)<unsigned8>[1]"
    ∷ codes "connectionCountNew(278)<unsigned32>[4]"
    ∷ codes "connectionSumDuration(279)<unsigned64>[8]"
    ∷ codes "connectionTransactionId(280)<unsigned64>[8]"
    ∷ codes "postNATSourceIPv6Address(281)<ipv6Address>[16]"
    ∷ codes "postNATDestinationIPv6Address(282)<ipv6Address>[16]"
    ∷ codes "natPoolId(283)<unsigned32>[4]"
    ∷ codes "natPoolName(284)<string>[65535]"
    ∷ codes "anonymizationFlags(285)<unsigned16>[2]"
    ∷ codes "anonymizationTechnique(286)<unsigned16>[2]"
    ∷ codes "informationElementIndex(287)<unsigned16>[2]"
    ∷ codes "p2pTechnology(288)<string>[65535]"
    ∷ codes "tunnelTechnology(289)<string>[65535]"
    ∷ codes "encryptedTechnology(290)<string>[65535]"
    ∷ codes "bgpValidityState(294)<unsigned8>[1]"
    ∷ codes "IPSecSPI(295)<unsigned32>[4]"
    ∷ codes "greKey(296)<unsigned32>[4]"
    ∷ codes "natType(297)<unsigned8>[1]"
    ∷ codes "initiatorPackets(298)<unsigned64>[8]"
    ∷ codes "responderPackets(299)<unsigned64>[8]"
    ∷ codes "observationDomainName(300)<string>[65535]"
    ∷ codes "selectionSequenceId(301)<unsigned64>[8]"
    ∷ codes "selectorId(302)<unsigned64>[8]"
    ∷ []
